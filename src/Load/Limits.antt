-- ===== src/Load/Limits.antt =====
-- The limit on the size of a remote module (src/worker/modules.rs).
use mathlib.Core.Path.{subst}
use deno_director.Prelude.{
  ◌≡◌, refl, sym, ap, ◌∙◌, ◌<◌, ◌+◌, ℕ, ◌⊎◌, inl, inr, ◌↔◌, true, false, not, Option, none, some,
  List, [], ◌++◌, length, length-append, if_elim, append_assoc, append-nil, arith, Option-cases,
}
use deno_director.Prelude.Int.{ℤ}
use deno_director.Prelude.Outcome.{Result, done}
use deno_director.Prelude.Text.{Text}
use deno_director.Prelude.Utf8.{from_utf8}
use deno_director.LoaderConfig.{Urls}
use deno_director.Load.World.{Body, finish, broken, chunk, Response, World}
use deno_director.Load.Fetch.{
  limit_of, saturating_add, exceeds, too_large, read_body, announces_too_much, accept_response,
  decoded, fetch_remote_text,
}

-- All the bytes of a body that does not break off.
unfoldable pub content : Body → Option (List ℕ)
content finish = some []
content (broken e) = none
content (chunk c body) = elim (content body) [ none ↦ none | some bs ↦ some (c ++ bs) ]

-- A limit below the largest number of the machine.
abbrev pub Below : Option ℕ → Type 0
Below none = Unit
Below (some m) = m < 0xFFFF_FFFF_FFFF_FFFF

exceeds-add :
    (limit : Option ℕ) (a b : ℕ)
    → Below limit
    → exceeds limit (saturating_add a b) ≡ exceeds limit (a + b)
unfolding saturating_add
exceeds-add none a b h = refl
exceeds-add (some m) a b h = ground arith

exceeds_more : (limit : Option ℕ) (a b : ℕ) → exceeds limit a ≡ true → exceeds limit (a + b) ≡ true
exceeds_more none a b h = absurd cc
exceeds_more (some m) a b h = ground arith

-- What the loop gets, with what it read before.
abbrev Reads : Option ℕ → List ℕ → Body → Text ⊎ List ℕ → Type 0
Reads limit bytes body (inl e) =
    (content body ≡ none)
    ⊎ ((bs : List ℕ) × (content body ≡ some bs) × (exceeds limit (length bytes + length bs) ≡ true))
Reads limit bytes body (inr all) =
    (bs : List ℕ) × (content body ≡ some bs)
    × (all ≡ bytes ++ bs)
    × (exceeds limit (length all) ≡ false)

content-chunk :
    (c bs : List ℕ) (body : Body) → content body ≡ some bs → content (chunk c body) ≡ some (c ++ bs)
unfolding content
content-chunk c bs body e = rw e refl

content-chunk_broken :
    (c : List ℕ) (body : Body) → content body ≡ none → content (chunk c body) ≡ none
unfolding content
content-chunk_broken c body e = rw e refl

Reads-chunk :
    (limit : Option ℕ) (bytes c : List ℕ) (body : Body) (r : Text ⊎ List ℕ)
    → Reads limit (bytes ++ c) body r
    → Reads limit bytes (chunk c body) r
Reads-chunk limit bytes c body (inl e) (inl h) = inl (content-chunk_broken c body h)
Reads-chunk limit bytes c body (inl e) (inr (bs, h, x)) = inr (
  c ++ bs,
  content-chunk c bs body h,
  ap (exceeds limit) (omega (arith, length-append c bs, length-append bytes c)) ∙ x,
)
Reads-chunk limit bytes c body (inr all) (bs, h, e, x) =
    (c ++ bs, content-chunk c bs body h, e ∙ append_assoc bytes c bs, x)

too_large-Reads :
    (limit : Option ℕ) (url : Text) (bytes c : List ℕ) (body : Body)
    → exceeds limit (length bytes + length c) ≡ true
    → Reads limit bytes (chunk c body) (inl (too_large limit url))
too_large-Reads limit url bytes c body h = elim (Option-cases (content body)) [
  | inl e ↦ inl (content-chunk_broken c body e)
  | inr (bs, e) ↦ inr (
    c ++ bs,
    content-chunk c bs body e,
    ap (exceeds limit) (omega (arith, length-append c bs))
        ∙ exceeds_more limit (length bytes + length c) (length bs) h,
  )
]

read_body-Reads :
    (limit : Option ℕ) (url : Text) (bytes : List ℕ) (body : Body)
    → Below limit
    → exceeds limit (length bytes) ≡ false
    → Reads limit bytes body (read_body limit url bytes body)
unfolding read_body content
read_body-Reads limit url bytes finish b h = ([], refl, sym (append-nil bytes), h)
read_body-Reads limit url bytes (broken e) b h = inl refl
read_body-Reads limit url bytes (chunk c body) b h =
    let same = exceeds-add limit (length bytes) (length c) b in
    if_elim (Reads limit bytes (chunk c body))
      (exceeds limit (saturating_add (length bytes) (length c)))
      (λ x. too_large-Reads limit url bytes c body (sym same ∙ x))
      (λ x. Reads-chunk limit bytes c body _ (
        read_body-Reads limit url (bytes ++ c) body b
          (ap (exceeds limit) (length-append bytes c) ∙ sym same ∙ x)))

-- The text of a response that is a success, announces no length above the limit, and whose body is
-- whole, not longer than the limit, and UTF-8.
abbrev pub Delivers : {N : Type 0} {U : Urls} → World N U → Option ℕ → Response → Text → Type 0
Delivers w limit resp s =
    (resp.is_success ≡ true)
    × (announces_too_much limit resp.content_length ≡ false)
    × (bs : List ℕ) × (content resp.body ≡ some bs)
    × (exceeds limit (length bs) ≡ false)
    × (from_utf8 bs ≡ some s)

module _ {N : Type 0} (U : Urls) (w : World N U) where
  sum_cases : {A B : Type 0} (x : A ⊎ B) → ((a : A) × (x ≡ inl a)) ⊎ ((b : B) × (x ≡ inr b))
  sum_cases (inl a) = inl (a, refl)
  sum_cases (inr b) = inr (b, refl)

  starts_below : (limit : Option ℕ) → exceeds limit 0 ≡ false
  starts_below none = refl
  starts_below (some m) = ground arith

  -- What was read of a body is all of it.
  whole :
      (limit : Option ℕ) (url : Text) (body : Body) (all : List ℕ)
      → Below limit
      → read_body limit url [] body ≡ inr all
      → (content body ≡ some all) × (exceeds limit (length all) ≡ false)
  whole limit url body all b r =
      let (bs, c, e, x) =
        subst (Reads limit [] body) r (read_body-Reads limit url [] body b (starts_below limit)) in
      (cc, x)

  -- A body that is whole and not too long is read.
  read :
      (limit : Option ℕ) (url : Text) (body : Body) (bs : List ℕ)
      → Below limit
      → content body ≡ some bs
      → exceeds limit (length bs) ≡ false
      → read_body limit url [] body ≡ inr bs
  read limit url body bs b c x = elim (sum_cases (read_body limit url [] body)) [
    | inr (all, r) ↦ let (same, y) = whole limit url body all b r in cc
    | inl (e, r) ↦
        elim (subst (Reads limit [] body) r
          (read_body-Reads limit url [] body b (starts_below limit))) [
            | inl gone ↦ absurd cc
            | inr (long, c₂, y) ↦ absurd (
                let z : exceeds limit (length long) ≡ true = ap (exceeds limit) (omega arith) ∙ y in
                cc)
          ]
  ]

  decoded_done :
      (r : Text ⊎ List ℕ) (s : Text)
      → decoded U w r ≡ done s
      → (bs : List ℕ) × (r ≡ inr bs) × (from_utf8 bs ≡ some s)
  decoded_done (inl e) s h = absurd cc
  decoded_done (inr bs) s h = elim (Option-cases (from_utf8 bs)) [
    | inl f ↦ absurd (let g = rw (decoded, f) at h in cc)
    | inr (s₂, f) ↦ let g = rw (decoded, f) at h in (bs, refl, cc)
  ]

  decoded_utf8 : (bs : List ℕ) (s : Text) → from_utf8 bs ≡ some s → decoded U w (inr bs) ≡ done s
  decoded_utf8 bs s f = rw (decoded, f) refl

  accepted-Delivers :
      (limit : Option ℕ) (url : Text) (resp : Response) (s : Text)
      → Below limit
      → accept_response U w limit url resp ≡ done s
      → Delivers w limit resp s
  unfolding accept_response
  accepted-Delivers limit url resp s b =
      let Sound : Result Text → Type 0 = λ r. r ≡ done s → Delivers w limit resp s in
      if_elim Sound (not resp.is_success) (λ _ h. absurd cc)
        (λ t.
          if_elim Sound (announces_too_much limit resp.content_length) (λ _ h. absurd cc)
            (λ a h.
              let (bs, r, f) = decoded_done (read_body limit url [] resp.body) s h in
              let (c, x) = whole limit url resp.body bs b r in (ground arith, a, bs, c, x, f)))

  delivered :
      (limit : Option ℕ) (url : Text) (resp : Response) (s : Text)
      → Below limit
      → Delivers w limit resp s
      → accept_response U w limit url resp ≡ done s
  unfolding accept_response
  delivered limit url resp s b (t, a, bs, c, x, f) =
      let Ends : Result Text → Type 0 = λ r. r ≡ done s in
      if_elim Ends (not resp.is_success) (λ n. absurd (ground arith))
        (λ _.
          if_elim Ends (announces_too_much limit resp.content_length) (λ n. absurd cc)
            (λ _. ap (decoded U w) (read limit url resp.body bs b c x) ∙ decoded_utf8 bs s f))

  -- With no limit or one below 2^64 - 1, a fetch returns a text exactly if the client and the request
  -- work, the response is a success that announces no length above the limit, and its body does not
  -- break off, is not longer than the limit and is the UTF-8 of that text.
  pub fetch_remote_text_iff :
      (u : Urls.Url U) (max_payload_bytes : ℤ) (s : Text)
      → Below (limit_of max_payload_bytes)
      → (fetch_remote_text U w u max_payload_bytes ≡ done s) ↔ (
          (w.client_error ≡ none)
          × (resp : Response) × (w.send u ≡ inr resp)
          × Delivers w (limit_of max_payload_bytes) resp s)
  unfolding fetch_remote_text
  fetch_remote_text_iff u max s b = (
    λ h. elim (Option-cases w.client_error) [
      | inr (e, k) ↦ absurd (let g = rw (fetch_remote_text, k) at h in cc)
      | inl k ↦ elim (sum_cases (w.send u)) [
        | inl (e, r) ↦ absurd (let g = rw (fetch_remote_text, k, r) at h in cc)
        | inr (resp, r) ↦ (
          k,
          resp,
          r,
          accepted-Delivers (limit_of max) (Urls.display U u) resp s b
              (rw (fetch_remote_text, k, r) at h),
        )
      ]
    ],
    λ (k, resp, r, d).
        rw (fetch_remote_text, k, r) (delivered (limit_of max) (Urls.display U u) resp s b d),
  )
