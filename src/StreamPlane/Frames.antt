-- ===== src/StreamPlane/Frames.antt =====
-- The loop of `push_vectorized_with_wake` in src/worker/stream_plane.rs, which cuts a byte string
-- into length-prefixed chunks, and the loop of `handle_post_stream_chunks_msg` in
-- src/worker/dispatch/deno_commands.rs that writes such a byte string.
pub mod RoundTrip
use deno_director.Prelude.{
  ℕ, suc, ◌+◌, ◌*◌, ◌/◌, ◌%◌, ◌^◌, Bool, true, List, [], ◌∷◌, ◌++◌, leb, if◌then◌else◌, length,
  take, drop,
}
use deno_director.StreamPlane.State.{Bytes, NativeStreamEvent}

-- The variables that the loop writes; `rest` is what lies behind the offset `off`.
pub record VectorLoop : Type 0 where
  pub queue : List NativeStreamEvent
  pub pushed_any : Bool
  pub pushed_chunks : ℕ
  pub pushed_bytes : ℕ

unfoldable pub from_be_bytes : ℕ → ℕ → ℕ → ℕ → ℕ
from_be_bytes a b c d = ((a * 256 + b) * 256 + c) * 256 + d

-- `(len as u32).to_be_bytes()`
unfoldable pub to_be_bytes : ℕ → Bytes
to_be_bytes len =
    (len / 0x100_0000 % 256) ∷ (len / 0x1_0000 % 256) ∷ (len / 0x100 % 256) ∷ (len % 256) ∷ []

unfoldable pub push_frame : VectorLoop → Bytes → VectorLoop
push_frame v frame = record {
  queue = v.queue ++ NativeStreamEvent.chunk frame ∷ [];
  pushed_any = true;
  pushed_chunks = v.pushed_chunks + 1;
  pushed_bytes = v.pushed_bytes + length frame;
}

-- `while off + 4 <= raw.len()`. Each round takes four bytes at least, so `length raw` rounds do.
unfoldable pub push_frames : ℕ → Bytes → VectorLoop → VectorLoop
unfolding push_frame from_be_bytes
push_frames (suc fuel) (a ∷ b ∷ c ∷ d ∷ rest) v =
    let len = from_be_bytes a b c d in
    let next = push_frames fuel (drop len rest) (push_frame v (take len rest)) in
    if leb len (length rest) then next else v
push_frames _ _ v = v

-- `merged` after the loop over `merged_chunks`.
unfoldable pub merge_chunks : List Bytes → Bytes
unfolding to_be_bytes
merge_chunks [] = []
merge_chunks (c ∷ cs) = to_be_bytes (length c % 2 ^ 32) ++ (c ++ merge_chunks cs)
