-- ===== src/Dispatch/Payload/View.antt =====
-- The bytes of a payload are those of its window (src/worker/dispatch/deno_commands.rs).
use deno_director.Prelude.{
  ℕ, ◌+◌, ◌-◌, ◌*◌, ◌≤◌, ◌<◌, min, ◌≡◌, refl, true, false, some, list_eq, length, take, drop,
  length-take, length-drop, arith, Bool-cases, inl, inr,
}
use deno_director.Prelude.Text.{Text}
use deno_director.Bridge.Windows.{
  two_64, is_whole_buffer, bytes_per_element, buffer_view_window, window_bytes, window-within,
}
use deno_director.StreamPlane.State.{Bytes}
use deno_director.Dispatch.Payload.{element_size, payload_window, window_bytes_of, view_chunk_bytes}

sizes_agree :
    (kind : Text) → is_whole_buffer kind ≡ false → element_size kind ≡ bytes_per_element kind
unfolding element_size bytes_per_element is_whole_buffer
sizes_agree kind h = ground arith

-- The copy of the window function that the handlers use agrees with that of the wire format.
pub payload_window_lem :
    (kind : Text) (raw_len offset len : ℕ)
    → payload_window kind raw_len offset len ≡ buffer_view_window kind raw_len offset len
unfolding payload_window buffer_view_window
payload_window_lem kind raw_len offset len = elim (Bool-cases (is_whole_buffer kind)) [
  | inl e ↦ rw e refl
  | inr e ↦ rw (e, sizes_agree kind e) refl
]

whole_size : (kind : Text) → is_whole_buffer kind ≡ true → element_size kind ≡ 1
unfolding is_whole_buffer element_size
whole_size kind h = ground arith

span_lem : (kind : Text) (len : ℕ) → len * element_size kind ≡ window_bytes kind len
unfolding window_bytes
span_lem kind len = elim (Bool-cases (is_whole_buffer kind)) [
  | inl e ↦ rw (e, whole_size kind e) (omega arith)
  | inr e ↦ rw (e, sizes_agree kind e) refl
]

inside_lem :
    (kind : Text) (bytes : Bytes) (start len span : ℕ)
    → len * element_size kind ≡ span
    → start + span ≤ length bytes
    → length bytes < two_64
    → window_bytes_of kind bytes start len ≡ some (take span (drop start bytes))
unfolding window_bytes_of
inside_lem kind bytes start len span e inside small =
    let n : min (start + span) (length bytes) - start ≡ span = omega arith in
    let a : start + span < two_64 = omega arith in
    let b : span < two_64 = omega arith in rw e (grind (arith, n))

-- The bytes of a binary payload of fewer than 2^64 bytes are exactly those of the window that is
-- chosen, as many as the window spans: the slice is never out of range.
pub view_chunk_bytes_lem :
    (kind : Text) (bytes : Bytes) (offset len : ℕ) (w : ℕ × ℕ)
    → length bytes < two_64
    → buffer_view_window kind (length bytes) offset len ≡ some w
    → (view_chunk_bytes kind bytes offset len
        ≡ some (take (window_bytes kind w.1) (drop w.0 bytes)))
      × (length (take (window_bytes kind w.1) (drop w.0 bytes)) ≡ window_bytes kind w.1)
unfolding view_chunk_bytes
view_chunk_bytes_lem kind bytes offset len w small h =
    let (inside, _) = window-within kind (length bytes) offset len w h in
    (
      rw (view_chunk_bytes, payload_window_lem kind (length bytes) offset len, h)
          (inside_lem kind bytes w.0 w.1 _ (span_lem kind w.1) inside small),
      omega (arith, length-take (window_bytes kind w.1) (drop w.0 bytes), length-drop w.0 bytes),
    )
