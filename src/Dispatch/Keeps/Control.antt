-- ===== src/Dispatch/Keeps/Control.antt =====
-- The rule for control messages of streams in src/worker/dispatch/deno_commands.rs.
use deno_director.Prelude.{
  ℕ, ◌≡◌, ◌⊎◌, inl, inr, [], refl, sym, ap, Bool, true, false, Option, none, some, ◌==◌, list_eq,
  if_elim,
}
use deno_director.Prelude.Text.{Text, codes, parse_u32}
use deno_director.Bridge.Json.{Numbers}
use deno_director.StreamPlane.State.{NativeIncomingPlane}
use deno_director.StreamPlane.Reachable.{Call, step}
use deno_director.Dispatch.State.{World, Engine, with_plane}
use deno_director.Dispatch.Js.{text_or}
use deno_director.Dispatch.Control.{
  on_stream, control, controlled, control_in_js, control_with, poked_if,
  handle_post_stream_control_msg,
}
use deno_director.Dispatch.Keeps.{Kept, js_call_or-Kept, typed-Kept}

-- The plane of the runtime, put back, changes nothing.
with_plane_self :
    {M N D R : Type 0} (w : World M N D R) (p : NativeIncomingPlane)
    → w.deno.plane ≡ some p
    → with_plane p w ≡ w
with_plane_self w p e =
    ap
      (λ (q : Option NativeIncomingPlane). record {
        deno = record { plane = q; registry = w.deno.registry };
        effects = w.effects;
      })
      (sym e)

module _ {S : Numbers} {M D R : Type 0} (E : Engine S M D R)
    (P : World M (Numbers.Number S) D R → Type 0) (k : Kept E P) where
  abbrev W : Type 0
  W = World M (Numbers.Number S) D R

  -- The plane that an operation answers with may take the place of the plane of the runtime.
  abbrev Fit : W → NativeIncomingPlane × Bool × Bool → Type 0
  Fit w r = P (with_plane r.0 w)

  module _ (w : W) (p : NativeIncomingPlane) (has : w.deno.plane ≡ some p) (h : P w) where
    same-Fit : Fit w (p, false, false)
    same-Fit = rw (with_plane_self w p has) h

    on_stream-Fit :
        (id : Option ℕ) (operation : ℕ → NativeIncomingPlane × Bool × Bool) (call : ℕ → Call)
        → ((i : ℕ) → (operation i).0 ≡ step p (call i))
        → Fit w (on_stream p id operation)
    on_stream-Fit none operation call same = same-Fit
    on_stream-Fit (some i) operation call same = rw (same i) (k.by_step w p (call i) has h)

    control-Fit : (kind id : Text) (aux : Option Text) → Fit w (control p kind id aux)
    unfolding control step
    control-Fit kind id aux =
        if_elim (Fit w) (kind == codes "open")
          (λ _. k.by_step w p (Call.open_stream id (text_or aux [])) has h)
          (λ _.
            if_elim (Fit w) (kind == codes "close") (λ _. on_stream-Fit _ _ Call.close (λ i. refl))
              (λ _.
                if_elim (Fit w) (kind == codes "error")
                  (λ _.
                    on_stream-Fit _ _
                      (λ i. Call.error i (text_or aux (codes "Remote stream error"))) (λ i. refl))
                  (λ _.
                    if_elim (Fit w) (kind == codes "cancel")
                      (λ _.
                        on_stream-Fit _ _
                          (λ i. Call.error i (text_or aux (codes "Remote stream cancelled")))
                          (λ i. refl))
                      (λ _.
                        if_elim (Fit w) (kind == codes "discard")
                          (λ _. on_stream-Fit _ _ Call.discard (λ i. refl)) (λ _. same-Fit)))))

  poked_if-Kept : (b : Bool) (id : Option ℕ) (w : W) → P w → P (poked_if E b id w)
  poked_if-Kept true (some id) w h = k.by_call _ w h
  poked_if-Kept true none w h = h
  poked_if-Kept false id w h = h

  in_js-Kept :
      (kind id : Text) (aux : Option Text) (w : W) → P w → P (control_in_js E kind id aux w)
  unfolding control_in_js
  in_js-Kept kind id aux = js_call_or-Kept E P k _ _ (typed-Kept E P k _ _ _)

  controlled-Kept :
      (kind id : Text) (aux : Option Text) (r : NativeIncomingPlane × Bool × Bool) (w : W)
      → Fit w r
      → P (controlled E kind id aux r w)
  unfolding controlled
  controlled-Kept kind id aux (p, true, wake) w h = poked_if-Kept wake (parse_u32 id) _ h
  controlled-Kept kind id aux (p, false, wake) w h = in_js-Kept kind id aux _ h

  with-Kept :
      (kind id : Text) (aux : Option Text) (plane : Option NativeIncomingPlane) (w : W)
      → (plane ≡ none) ⊎ (plane ≡ w.deno.plane)
      → P w
      → P (control_with E kind id aux plane w)
  unfolding control_with
  with-Kept kind id aux none w e h = in_js-Kept kind id aux w h
  with-Kept kind id aux (some p) w (inl e) h = absurd cc
  with-Kept kind id aux (some p) w (inr e) h =
      controlled-Kept kind id aux _ w (control-Fit w p (sym e) h kind id aux)

  pub control-Kept :
      (kind id : Text) (aux : Option Text) (u : Bool) (w : W)
      → P w
      → P (handle_post_stream_control_msg E kind id aux u w)
  unfolding handle_post_stream_control_msg
  control-Kept kind id aux true w h = with-Kept kind id aux _ w (inr refl) h
  control-Kept kind id aux false w h = with-Kept kind id aux none w (inl refl) h
