-- ===== src/Tests/Scripts.antt =====
-- Runs of the stream operations of src/worker/ops.rs, and the theorems at these runs.
use deno_director.Prelude.{
  ◌≡◌, refl, false, true, none, some, [], ◌∷◌, ◌++◌, map, replicate, nat_eq, list_eq,
}
use deno_director.Prelude.Dict
use deno_director.Prelude.Int.{pos}
use deno_director.Prelude.Text.{codes, parse_unsigned}
use deno_director.StreamPlane
use deno_director.StreamPlane.Push
use deno_director.StreamPlane.State.{NativeStreamEvent, NativeIncomingPlane, new}
use deno_director.StreamPlane.Fifo.{events}
use deno_director.StreamPlane.Invariant.{IsConsistent}
use deno_director.StreamPlane.Reachable.{Call, start, next, step, reachable-IsConsistent}
use deno_director.StreamOps.{OpState, NativeReadScratch, with_plane, stream_read_raw}
use deno_director.StreamOps.Agree.{read_and_take, frame_of, read_and_take-stream_read_raw}
use deno_director.StreamOps.Delivery.{raw_reads, raw_reads_all, raw_reads-close_with_wake}
use deno_director.Tests.Stream.{opened}

-- The stream 7 with one chunk.
abbrev waiting : NativeIncomingPlane
waiting = step opened (Call.push_chunk 7 (5 ∷ []))

abbrev unused : NativeReadScratch
unused = record { chunks = []; poisoned = false }

abbrev script : OpState
script = record { plane = some waiting; scratch = some unused; listed = true }

waiting-IsConsistent : IsConsistent waiting
waiting-IsConsistent =
    reachable-IsConsistent false none
      (next (next start (Call.open_stream (codes "7") (codes "k"))) (Call.push_chunk 7 (5 ∷ [])))

waiting_open : StreamPlane.has_stream waiting 7 ≡ true
unfolding step StreamPlane.open_stream StreamPlane.has_stream Dict.get Dict.insert new
    parse_unsigned Push.push_chunk
waiting_open = refl

one_chunk : events waiting 7 ≡ map NativeStreamEvent.chunk ((5 ∷ []) ∷ [])
unfolding step StreamPlane.open_stream events Dict.get Dict.insert new parse_unsigned
    Push.push_chunk
one_chunk = refl

raw_reads_all_example :
    (raw_reads 3 script (pos 7)).1 ≡ map (◌∷◌ 1) ((5 ∷ []) ∷ []) ++ replicate 2 (0 ∷ [])
raw_reads_all_example =
    raw_reads_all ((5 ∷ []) ∷ []) 2 6 script waiting refl waiting-IsConsistent waiting_open
      one_chunk

raw_reads-close_with_wake_example :
    (raw_reads 2 (with_plane script (Push.close_with_wake waiting 7).0) (pos 7)).1
    ≡ replicate 2 (2 ∷ [])
raw_reads-close_with_wake_example =
    raw_reads-close_with_wake 2 6 script waiting waiting-IsConsistent waiting_open

read_and_take-stream_read_raw_example :
    let (st', reply, chunk) = read_and_take script (pos 7) in
    (st' ≡ (stream_read_raw script (pos 7)).0)
    × (frame_of reply chunk ≡ (stream_read_raw script (pos 7)).1)
unfolding Dict.get
read_and_take-stream_read_raw_example =
    read_and_take-stream_read_raw script (pos 7) unused refl refl (λ n e. refl)
