-- ===== src/Tests/Stream.antt =====
-- Runs of the stream plane of src/worker/stream_plane.rs, and its theorems at these runs.
use deno_director.Prelude.{
  ◌<◌, ◌≡◌, ◌≢◌, refl, true, false, none, List, [], ◌∷◌, map, arith, nat_eq, list_eq,
}
use deno_director.Prelude.Dict
use deno_director.Prelude.Text.{codes, parse_unsigned}
use deno_director.StreamPlane
use deno_director.StreamPlane.Push
use deno_director.StreamPlane.Read
use deno_director.StreamPlane.State.{Bytes, NativeReadEvent, NativeIncomingPlane, new}
use deno_director.StreamPlane.Frames.{merge_chunks}
use deno_director.StreamPlane.Fifo.{events}
use deno_director.StreamPlane.Invariant.{IsConsistent}
use deno_director.StreamPlane.Reachable.{Call, start, next, step, reachable-IsConsistent}
use deno_director.StreamPlane.Delivery.{drain, vectorized_delivery}
use deno_director.StreamPlane.Refinement.{effect, events-step}
use deno_director.StreamPlane.Wake.{wait_is_told}

abbrev fresh : NativeIncomingPlane
fresh = new false none

-- A plane with the stream 7 open under the key "k".
abbrev pub opened : NativeIncomingPlane
opened = step fresh (Call.open_stream (codes "7") (codes "k"))

fresh-IsConsistent : IsConsistent fresh
fresh-IsConsistent = reachable-IsConsistent false none start

reachable-IsConsistent_example : IsConsistent opened
reachable-IsConsistent_example =
    reachable-IsConsistent false none (next start (Call.open_stream (codes "7") (codes "k")))

abbrev pub two_chunks : List Bytes
two_chunks = (1 ∷ 2 ∷ []) ∷ (3 ∷ []) ∷ []

merged : merge_chunks two_chunks ≡ 0 ∷ 0 ∷ 0 ∷ 2 ∷ 1 ∷ 2 ∷ 0 ∷ 0 ∷ 0 ∷ 1 ∷ 3 ∷ []
unfolding merge_chunks
merged = refl

pub open_now : StreamPlane.has_stream opened 7 ≡ true
unfolding step StreamPlane.open_stream StreamPlane.has_stream Dict.get Dict.insert new
    parse_unsigned
open_now = refl

pub empty_now : events opened 7 ≡ []
unfolding step StreamPlane.open_stream events Dict.get Dict.insert new parse_unsigned
empty_now = refl

vectorized_delivery_example :
    ((drain 2 (Push.push_vectorized_with_wake opened 7 (merge_chunks two_chunks)).0 7).1
      ≡ map NativeReadEvent.chunk two_chunks)
    × (events (drain 2 (Push.push_vectorized_with_wake opened 7 (merge_chunks two_chunks)).0 7).0 7
        ≡ [])
vectorized_delivery_example =
    vectorized_delivery two_chunks opened 7
      (reachable-IsConsistent false none (next start (Call.open_stream (codes "7") (codes "k"))))
      open_now empty_now (omega arith)

nothing_fresh : events fresh 7 ≡ []
unfolding events Dict.get new
nothing_fresh = refl

no_key : Dict.get fresh.key_to_id (codes "k") ≡ none
unfolding Dict.get new
no_key = refl

events-step_example :
    events (step fresh (Call.push_chunk 7 (1 ∷ []))) 7
    ≡ effect (Call.push_chunk 7 (1 ∷ [])) 7 (StreamPlane.has_stream fresh 7) (events fresh 7)
events-step_example = events-step fresh (Call.push_chunk 7 (1 ∷ [])) 7 fresh-IsConsistent

waits : (Read.read_wait_event_round opened 7).1 ≡ none
unfolding Read.read_wait_event_round step StreamPlane.open_stream Dict.get Dict.insert Dict.remove
    new parse_unsigned
waits = refl

is_ready : (Read.read_wait_event_round (step opened (Call.push_chunk 7 (1 ∷ []))) 7).1 ≢ none
unfolding Read.read_wait_event_round step StreamPlane.open_stream Push.push_chunk_with_wake Dict.get
    Dict.insert Dict.remove new parse_unsigned
is_ready e = cc

wait_is_told_example :
    (opened.read_notified < (step opened (Call.push_chunk 7 (1 ∷ []))).read_notified)
    × (opened.cv_notified < (step opened (Call.push_chunk 7 (1 ∷ []))).cv_notified)
wait_is_told_example = wait_is_told opened (Call.push_chunk 7 (1 ∷ [])) 7 waits is_ready
