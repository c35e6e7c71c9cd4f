-- ===== src/StreamPlane/Frames/RoundTrip.antt =====
-- What the vectorised framing reads back of what it wrote.
use deno_director.Prelude.{
  ℕ, zero, suc, ◌/◌, ◌%◌, ◌^◌, ◌≤◌, ◌<◌, ◌≡◌, refl, sym, ap, ◌∙◌, false, List, [], ◌∷◌, ◌++◌,
  append_assoc, arith, leb, length, take, drop, length-append, length-take, length-drop,
  take-length-append, drop-length-append, take-append-drop, All, All-drop, inl, inr, Bool-cases,
  leb→le, le→leb,
}
use deno_director.StreamPlane.State.{Bytes}
use deno_director.StreamPlane.Frames.{
  VectorLoop, from_be_bytes, to_be_bytes, push_frame, push_frames, merge_chunks,
}

abbrev pub IsByte : ℕ → Type 0
IsByte b = b < 256

-- The length of a frame fits its prefix.
abbrev pub Fits : Bytes → Type 0
Fits c = length c < 2 ^ 32

-- What a loop that reads the frames `cs` makes of its variables.
unfoldable pub pushed : VectorLoop → List Bytes → VectorLoop
unfolding push_frame
pushed v [] = v
pushed v (c ∷ cs) = pushed (push_frame v c) cs

from_be-to_be :
    (n : ℕ)
    → n < 2 ^ 32
    → from_be_bytes (n / 0x100_0000 % 256) (n / 0x1_0000 % 256) (n / 0x100 % 256) (n % 256) ≡ n
unfolding from_be_bytes
from_be-to_be n h = omega arith

to_be-from_be :
    (a b c d : ℕ)
    → IsByte a
    → IsByte b
    → IsByte c
    → IsByte d
    → to_be_bytes (from_be_bytes a b c d) ≡ a ∷ b ∷ c ∷ d ∷ []
unfolding from_be_bytes to_be_bytes
to_be-from_be a b c d ha hb hc hd = ground arith

from_be-lt :
    (a b c d : ℕ) → IsByte a → IsByte b → IsByte c → IsByte d → from_be_bytes a b c d < 2 ^ 32
unfolding from_be_bytes
from_be-lt a b c d ha hb hc hd = omega arith

-- One round on a whole frame.
one_frame :
    (fuel a b c d : ℕ) (frame rest : Bytes) (v : VectorLoop)
    → from_be_bytes a b c d ≡ length frame
    → push_frames (suc fuel) (a ∷ b ∷ c ∷ d ∷ (frame ++ rest)) v
      ≡ push_frames fuel rest (push_frame v frame)
unfolding push_frames
one_frame fuel a b c d frame rest v e = rw (
  e,
  take-length-append frame rest,
  drop-length-append frame rest,
  le→leb (length frame) (length (frame ++ rest)) (omega (arith, length-append frame rest)),
)

prefix : (c : Bytes) → Fits c → (length c % 2 ^ 32) ≡ length c
prefix c fit = omega arith

push_frames-merge :
    (cs : List Bytes) (fuel : ℕ) (v : VectorLoop)
    → All Fits cs
    → length (merge_chunks cs) ≤ fuel
    → push_frames fuel (merge_chunks cs) v ≡ pushed v cs
unfolding merge_chunks pushed
push_frames-merge [] zero v fit h = unfold push_frames in refl
push_frames-merge [] (suc fuel) v fit h = unfold push_frames in refl
push_frames-merge (c ∷ cs) zero v fit h = absurd (omega arith)
push_frames-merge (c ∷ cs) (suc fuel) v (fit, fits) h =
    one_frame fuel _ _ _ _ c (merge_chunks cs) v (rw (prefix c fit) (from_be-to_be _ fit))
    ∙ push_frames-merge cs fuel (push_frame v c) fits
        (omega (arith, length-append c (merge_chunks cs)))

-- Reading what `merge_chunks` wrote pushes exactly the chunks that were merged, in their order, for
-- chunks whose length fits the prefix, with as many rounds as there are bytes.
pub push_frames-merge_chunks :
    (cs : List Bytes) (v : VectorLoop)
    → All Fits cs
    → push_frames (length (merge_chunks cs)) (merge_chunks cs) v ≡ pushed v cs
push_frames-merge_chunks cs v fits = push_frames-merge cs _ v fits (omega arith)

-- What the loop does to any input, with `fuel` rounds: the input is a row of frames and a tail that
-- holds no whole frame.
pub record Reads (fuel : ℕ) (raw : Bytes) : Type 0 where
  pub frames : List Bytes
  pub tail : Bytes
  pub split : raw ≡ merge_chunks frames ++ tail
  pub fits : All Fits frames
  pub loop : (v : VectorLoop) → push_frames fuel raw v ≡ pushed v frames
  pub rest : (more : ℕ) (v : VectorLoop) → push_frames more tail v ≡ v

no_frame_short :
    (raw : Bytes) → length raw < 4 → (fuel : ℕ) (v : VectorLoop) → push_frames fuel raw v ≡ v
unfolding push_frames
no_frame_short raw h zero v = refl
no_frame_short [] h (suc fuel) v = refl
no_frame_short (a ∷ []) h (suc fuel) v = refl
no_frame_short (a ∷ b ∷ []) h (suc fuel) v = refl
no_frame_short (a ∷ b ∷ c ∷ []) h (suc fuel) v = refl
no_frame_short (a ∷ b ∷ c ∷ d ∷ raw) h (suc fuel) v = absurd (omega arith)

no_frame_long :
    (a b c d : ℕ) (rest : Bytes)
    → leb (from_be_bytes a b c d) (length rest) ≡ false
    → (fuel : ℕ) (v : VectorLoop) → push_frames fuel (a ∷ b ∷ c ∷ d ∷ rest) v ≡ v
unfolding push_frames
no_frame_long a b c d rest h zero v = refl
no_frame_long a b c d rest h (suc fuel) v = rw h

Reads-tail :
    (fuel : ℕ) (raw : Bytes)
    → ((more : ℕ) (v : VectorLoop) → push_frames more raw v ≡ v)
    → Reads fuel raw
unfolding merge_chunks pushed
Reads-tail fuel raw no_frame = record {
  frames = [];
  tail = raw;
  split = refl;
  fits = tt;
  loop = no_frame fuel;
  rest = no_frame;
}

header_of :
    (a b c d : ℕ) (frame : Bytes)
    → IsByte a
    → IsByte b
    → IsByte c
    → IsByte d
    → from_be_bytes a b c d ≡ length frame
    → to_be_bytes (length frame % 2 ^ 32) ≡ a ∷ b ∷ c ∷ d ∷ []
header_of a b c d frame ha hb hc hd e = rw (← e, prefix_of) (to_be-from_be a b c d ha hb hc hd)
  where
    prefix_of : from_be_bytes a b c d % 2 ^ 32 ≡ from_be_bytes a b c d
    prefix_of = omega (arith, from_be-lt a b c d ha hb hc hd)

Reads-frame :
    (fuel a b c d : ℕ) (frame rest : Bytes)
    → IsByte a
    → IsByte b
    → IsByte c
    → IsByte d
    → from_be_bytes a b c d ≡ length frame
    → Reads fuel rest
    → Reads (suc fuel) (a ∷ b ∷ c ∷ d ∷ (frame ++ rest))
unfolding merge_chunks pushed
Reads-frame fuel a b c d frame rest ha hb hc hd e r = record {
  frames = frame ∷ r.frames;
  tail = r.tail;
  split =
      ap (λ (t : Bytes). a ∷ b ∷ c ∷ d ∷ (frame ++ t)) r.split
      ∙ ap (λ (t : Bytes). a ∷ b ∷ c ∷ d ∷ t)
          (sym (append_assoc frame (merge_chunks r.frames) r.tail))
      ∙ ap (λ (h : Bytes). h ++ ((frame ++ merge_chunks r.frames) ++ r.tail))
          (sym (header_of a b c d frame ha hb hc hd e));
  fits = (rw (← e) (from_be-lt a b c d ha hb hc hd), r.fits);
  loop = λ v. one_frame fuel a b c d frame rest v e ∙ r.loop (push_frame v frame);
  rest = r.rest;
}

Reads-loop : (fuel : ℕ) (raw : Bytes) → length raw ≤ fuel → All IsByte raw → Reads fuel raw
Reads-loop fuel [] h bytes = Reads-tail fuel _ (no_frame_short _ (omega arith))
Reads-loop fuel (a ∷ []) h bytes = Reads-tail fuel _ (no_frame_short _ (omega arith))
Reads-loop fuel (a ∷ b ∷ []) h bytes = Reads-tail fuel _ (no_frame_short _ (omega arith))
Reads-loop fuel (a ∷ b ∷ c ∷ []) h bytes = Reads-tail fuel _ (no_frame_short _ (omega arith))
Reads-loop zero (a ∷ b ∷ c ∷ d ∷ rest) h bytes = absurd (omega arith)
Reads-loop (suc fuel) (a ∷ b ∷ c ∷ d ∷ rest) h (ha, (hb, (hc, (hd, bytes)))) =
    let len = from_be_bytes a b c d in
    elim (Bool-cases (leb len (length rest))) [
      | inr short ↦ Reads-tail (suc fuel) _ (no_frame_long a b c d rest short)
      | inl whole ↦ rw (take-append-drop len rest) at (
          Reads-frame fuel a b c d (take len rest) (drop len rest) ha hb hc hd
            (omega (arith, length-take len rest, leb→le len (length rest) whole))
            (Reads-loop fuel (drop len rest) (omega (arith, length-drop len rest))
              (All-drop IsByte len rest bytes)))
    ]

-- Any byte string is a row of frames and a tail: the loop pushes the frames, in order, and leaves a
-- tail that holds no whole frame, with as many rounds as there are bytes.
pub push_frames_total : (raw : Bytes) → All IsByte raw → Reads (length raw) raw
push_frames_total raw bytes = Reads-loop (length raw) raw (omega arith) bytes
