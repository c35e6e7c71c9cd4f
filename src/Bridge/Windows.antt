-- ===== src/Bridge/Windows.antt =====
-- The window of a typed array in the bytes that came with it (`buffer_view_window` of
-- src/bridge/wire.rs). `usize` has 64 bits.
use deno_director.Prelude.{
  ◌⊎◌, inl, inr, ℕ, ◌+◌, ◌-◌, ◌*◌, ◌/◌, ◌≤◌, ◌<◌, min, ◌≡◌, Bool, ◌||◌, Option, none, some, ltb,
  leb, ◌==◌, list_eq, nat_eq, if◌then◌else◌, arith, Bool-cases,
}
use deno_director.Prelude.Text.{Text, codes}

abbrev pub two_64 : ℕ
two_64 = 0x1_0000_0000_0000_0000

unfoldable pub bytes_per_element : Text → ℕ
bytes_per_element kind =
    if kind == codes "Int8Array"
      || kind == codes "Uint8Array"
      || kind == codes "Uint8ClampedArray"
      || kind == codes "DataView"
    then 1
    else if kind == codes "Int16Array" || kind == codes "Uint16Array"
    then 2
    else if kind == codes "Int32Array"
        || kind == codes "Uint32Array"
        || kind == codes "Float32Array"
    then 4
    else if kind == codes "Float64Array"
        || kind == codes "BigInt64Array"
        || kind == codes "BigUint64Array"
    then 8
    else 1

unfoldable pub is_whole_buffer : Text → Bool
is_whole_buffer kind = kind == codes "ArrayBuffer" || kind == codes "SharedArrayBuffer"

unfoldable pub fallback_window : ℕ → ℕ → ℕ → ℕ → ℕ → ℕ × ℕ
fallback_window size raw_len offset len span =
    if leb span raw_len
    then (0, len)
    else (min offset raw_len, (raw_len - min offset raw_len) / size)

unfoldable pub element_window : ℕ → ℕ → ℕ → ℕ → Option (ℕ × ℕ)
element_window size raw_len offset len =
    let span = len * size in
    if leb two_64 span
    then none
    else if leb offset raw_len
    then (if ltb (offset + span) two_64
        then (if leb (offset + span) raw_len
            then some (offset, len)
            else some (fallback_window size raw_len offset len span))
        else some (fallback_window size raw_len offset len span))
    else some (fallback_window size raw_len offset len span)

unfoldable pub buffer_view_window : Text → ℕ → ℕ → ℕ → Option (ℕ × ℕ)
buffer_view_window kind raw_len offset len =
    if is_whole_buffer kind
    then some (0, min len raw_len)
    else element_window (bytes_per_element kind) raw_len offset len

-- The bytes that a view of `len` elements spans; the length of a whole buffer is in bytes.
unfoldable pub window_bytes : Text → ℕ → ℕ
window_bytes kind len = if is_whole_buffer kind then len else len * bytes_per_element kind

sizes :
    (kind : Text)
    → (bytes_per_element kind ≡ 1)
      ⊎ (bytes_per_element kind ≡ 2)
      ⊎ (bytes_per_element kind ≡ 4)
      ⊎ (bytes_per_element kind ≡ 8)
unfolding bytes_per_element
sizes kind = ground arith

-- What holds of every window of the elements.
abbrev Fits : ℕ → ℕ → ℕ → ℕ × ℕ → Type 0
Fits size raw_len len w = (w.0 + w.1 * size ≤ raw_len) × (w.1 ≤ len)

fallback-Fits :
    (size raw_len offset len : ℕ)
    → (size ≡ 1) ⊎ (size ≡ 2) ⊎ (size ≡ 4) ⊎ (size ≡ 8)
    → Fits size raw_len len (fallback_window size raw_len offset len (len * size))
unfolding fallback_window
fallback-Fits size raw_len offset len (inl e) = rw e (ground arith)
fallback-Fits size raw_len offset len (inr (inl e)) = rw e (ground arith)
fallback-Fits size raw_len offset len (inr (inr (inl e))) = rw e (ground arith)
fallback-Fits size raw_len offset len (inr (inr (inr e))) = rw e (ground arith)

element_window-Fits :
    (size raw_len offset len : ℕ) (w : ℕ × ℕ)
    → Fits size raw_len len (fallback_window size raw_len offset len (len * size))
    → element_window size raw_len offset len ≡ some w
    → Fits size raw_len len w
unfolding element_window
element_window-Fits size raw_len offset len w f h = grind arith

-- A window that fits is its own window.
element_window-again :
    (size raw_len offset len : ℕ)
    → raw_len < two_64
    → offset + len * size ≤ raw_len
    → element_window size raw_len offset len ≡ some (offset, len)
unfolding element_window
element_window-again size raw_len offset len h f = ground arith

-- The window that is chosen lies inside the bytes and has no more elements than were asked for.
pub window-within :
    (kind : Text) (raw_len offset len : ℕ) (w : ℕ × ℕ)
    → buffer_view_window kind raw_len offset len ≡ some w
    → (w.0 + window_bytes kind w.1 ≤ raw_len) × (w.1 ≤ len)
unfolding buffer_view_window window_bytes
window-within kind raw_len offset len w h =
    let f = fallback-Fits (bytes_per_element kind) raw_len offset len (sizes kind) in
    elim (Bool-cases (is_whole_buffer kind)) [
      | inl e ↦ ground arith
      | inr e ↦
          rw e (element_window-Fits (bytes_per_element kind) raw_len offset len w f (rw e at h))
    ]

-- In fewer than 2^64 bytes, a window that was chosen is chosen again from its own offset and length.
pub window-again :
    (kind : Text) (raw_len offset len : ℕ) (w : ℕ × ℕ)
    → raw_len < two_64
    → buffer_view_window kind raw_len offset len ≡ some w
    → buffer_view_window kind raw_len w.0 w.1 ≡ some w
unfolding buffer_view_window window_bytes
window-again kind raw_len offset len w small h =
    let (f, _) = window-within kind raw_len offset len w h in
    elim (Bool-cases (is_whole_buffer kind)) [
      | inl e ↦ grind arith
      | inr e ↦
          rw e (element_window-again (bytes_per_element kind) raw_len w.0 w.1 small (rw e at f))
    ]
