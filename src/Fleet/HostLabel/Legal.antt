-- ===== src/Fleet/HostLabel/Legal.antt =====
-- What the host label of an app looks like, whatever text its component and its environment are.
use runtime_service.Base.{
  ℕ, zero, suc, ◌≤◌, ◌≡◌, refl, ap, Bool, true, false, not, ◌&&◌, ◌||◌, leb, [], ◌∷◌, ◌++◌, length,
  length-append, map, All, All-append, Text, is_space, ◌⊎◌, inl, inr, arith, Bool-cases,
}
use runtime_service.Fleet.Replica.{FleetApp}
use runtime_service.Fleet.HostLabel.{
  Builder, is_slug_rune, is_dash, is_empty, trim_left, trim_right, prefix, write_rune, write_runes,
  empty_builder, sanitize_slug, dns_label, label_for_app,
}

-- [a-z0-9-].
abbrev pub IsLegal : ℕ → Type 0
IsLegal c = (is_slug_rune c || is_dash c) ≡ true

-- Empty, or with a letter or digit in front.
abbrev Leads : Text → Type 0
Leads [] = Unit
Leads (c ∷ cs) = is_slug_rune c ≡ true

-- A letter or digit is in front.
abbrev pub IsLed : Text → Type 0
IsLed s = (c : ℕ) × (cs : Text) × (s ≡ c ∷ cs) × (is_slug_rune c ≡ true)

slug_not_dash : (c : ℕ) → is_slug_rune c ≡ true → is_dash c ≡ false
slug_not_dash c h = ground arith

slug_rune-IsLegal : (c : ℕ) → is_slug_rune c ≡ true → IsLegal c
slug_rune-IsLegal c h = rw h refl

All-IsLegal : (s : Text) → All (λ c. is_slug_rune c ≡ true) s → All IsLegal s
All-IsLegal [] h = tt
All-IsLegal (c ∷ cs) h = (slug_rune-IsLegal c h.0, All-IsLegal cs h.1)

All-trim_left : (P : ℕ → Type 0) (p : ℕ → Bool) (s : Text) → All P s → All P (trim_left p s)
unfolding trim_left
All-trim_left P p [] h = h
All-trim_left P p (c ∷ cs) h = elim (Bool-cases (p c)) [
  | inl e ↦ rw e (All-trim_left P p cs h.1)
  | inr e ↦ rw e h
]

All-trim_right : (P : ℕ → Type 0) (p : ℕ → Bool) (s : Text) → All P s → All P (trim_right p s)
unfolding trim_right
All-trim_right P p [] h = h
All-trim_right P p (c ∷ cs) h = elim (Bool-cases (p c && is_empty (trim_right p cs))) [
  | inl e ↦ rw e tt
  | inr e ↦ rw e (h.0, All-trim_right P p cs h.1)
]

length-trim_right : (p : ℕ → Bool) (s : Text) → length (trim_right p s) ≤ length s
unfolding trim_right
length-trim_right p [] = omega arith
length-trim_right p (c ∷ cs) =
    let shorter = length-trim_right p cs in
    elim (Bool-cases (p c && is_empty (trim_right p cs))) [
      | inl e ↦ rw e (omega arith)
      | inr e ↦ rw e (omega (arith, shorter))
    ]

All-prefix : (P : ℕ → Type 0) (n : ℕ) (s : Text) → All P s → All P (prefix n s)
unfolding prefix
All-prefix P zero s h = tt
All-prefix P (suc n) [] h = tt
All-prefix P (suc n) (c ∷ cs) h = (h.0, All-prefix P n cs h.1)

length-prefix : (n : ℕ) (s : Text) → length (prefix n s) ≤ n
unfolding prefix
length-prefix zero s = omega arith
length-prefix (suc n) [] = omega arith
length-prefix (suc n) (c ∷ cs) = omega (arith, length-prefix n cs)

-- A text that a letter or digit leads keeps it under trimming.
trim_right_led :
    (c : ℕ) (cs : Text)
    → is_slug_rune c ≡ true
    → trim_right is_dash (c ∷ cs) ≡ c ∷ trim_right is_dash cs
unfolding trim_right
trim_right_led c cs h = rw (slug_not_dash c h) refl

Leads-trim_right : (s : Text) → Leads s → Leads (trim_right is_dash s)
unfolding trim_right
Leads-trim_right [] h = tt
Leads-trim_right (c ∷ cs) h = rw (slug_not_dash c h) h

Leads-trim_left : (s : Text) → Leads s → Leads (trim_left is_dash s)
unfolding trim_left
Leads-trim_left [] h = tt
Leads-trim_left (c ∷ cs) h = rw (slug_not_dash c h) h

record IsClean (b : Builder) : Type 0 where
  legal : All IsLegal b.written
  leads : Leads b.written

-- What is written behind a text changes its front only if it is empty.
Leads-append :
    (s : Text) (c : ℕ) → Leads s → (is_empty s ≡ true → is_slug_rune c ≡ true) → Leads (s ++ c ∷ [])
Leads-append [] c h first = first refl
Leads-append (d ∷ s) c h first = h

write_rune-IsClean : (b : Builder) (c : ℕ) → IsClean b → IsClean (write_rune b c)
unfolding write_rune
write_rune-IsClean b c k = elim (Bool-cases (is_slug_rune c)) [
  | inl e ↦ rw e (record {
    legal = All-append IsLegal b.written (c ∷ []) k.legal (slug_rune-IsLegal c e, tt);
    leads = Leads-append b.written c k.leads (λ _. e);
  })
  | inr e ↦ rw e (elim (Bool-cases (not b.prev_dash && not (is_empty b.written))) [
    | inl dashes ↦ rw dashes (record {
      legal = All-append IsLegal b.written (45 ∷ []) k.legal (refl, tt);
      leads = Leads-append b.written 45 k.leads (λ blank. ground arith);
    })
    | inr skips ↦ rw skips k
  ])
]

write_runes-IsClean : (b : Builder) (s : Text) → IsClean b → IsClean (write_runes b s)
unfolding write_runes
write_runes-IsClean b [] k = k
write_runes-IsClean b (c ∷ s) k = write_runes-IsClean (write_rune b c) s (write_rune-IsClean b c k)

blank-IsClean : IsClean empty_builder
blank-IsClean = record { legal = tt; leads = tt }

sanitize_slug-IsLegal : (lower : ℕ → ℕ) (s : Text) → All IsLegal (sanitize_slug lower s)
unfolding sanitize_slug
sanitize_slug-IsLegal lower s =
    let lowered = map lower (trim_right is_space (trim_left is_space s)) in
    let clean = write_runes-IsClean empty_builder lowered blank-IsClean in
    All-trim_right IsLegal is_dash _ (All-trim_left IsLegal is_dash _ clean.legal)

sanitize_slug-Leads : (lower : ℕ → ℕ) (s : Text) → Leads (sanitize_slug lower s)
unfolding sanitize_slug
sanitize_slug-Leads lower s =
    let lowered = map lower (trim_right is_space (trim_left is_space s)) in
    let clean = write_runes-IsClean empty_builder lowered blank-IsClean in
    Leads-trim_right _ (Leads-trim_left _ clean.leads)

module _ (sha256_hex : Text → Text) where
  dns_label-length : (s : Text) → length (dns_label sha256_hex s) ≤ 63
  unfolding dns_label
  dns_label-length s = elim (Bool-cases (leb (length s) 63)) [
    | inl e ↦ rw e (ground arith)
    | inr e ↦
        let front = trim_right is_dash (prefix 54 s) in
        let digits = prefix 8 (sha256_hex s) in
        let short = length-trim_right is_dash (prefix 54 s) in
        let cut = length-prefix 54 s in
        let few = length-prefix 8 (sha256_hex s) in
        let whole = length-append front (45 ∷ digits) in
        rw e (omega (arith, short, cut, few, whole))
  ]

  dns_label-IsLegal :
      (s : Text) → All IsLegal (sha256_hex s) → All IsLegal s → All IsLegal (dns_label sha256_hex s)
  unfolding dns_label
  dns_label-IsLegal s digits h = elim (Bool-cases (leb (length s) 63)) [
    | inl e ↦ rw e h
    | inr e ↦ rw e (
        All-append IsLegal (trim_right is_dash (prefix 54 s)) _
          (All-trim_right IsLegal is_dash _ (All-prefix IsLegal 54 s h))
          (refl, All-prefix IsLegal 8 (sha256_hex s) digits))
  ]

  dns_label-IsLed :
      (c : ℕ) (cs : Text) → is_slug_rune c ≡ true → IsLed (dns_label sha256_hex (c ∷ cs))
  unfolding dns_label prefix
  dns_label-IsLed c cs h = elim (Bool-cases (leb (length (c ∷ cs)) 63)) [
    | inl e ↦ rw e (c, cs, refl, h)
    | inr e ↦
        let digits = prefix 8 (sha256_hex (c ∷ cs)) in
        rw e (
          c,
          trim_right is_dash (prefix 53 cs) ++ 45 ∷ digits,
          ap (λ t. t ++ 45 ∷ digits) (trim_right_led c (prefix 53 cs) h),
          h,
        )
  ]

  front_or_blank :
      (front back : Text)
      → Leads front
      → (front ≡ []) ⊎ IsLed (dns_label sha256_hex (front ++ back))
  front_or_blank [] back h = inl refl
  front_or_blank (c ∷ cs) back h = inr (dns_label-IsLed c (cs ++ back) h)

-- If the digits of the hash are of a-z and 0-9: the first label of hostForApp has at most 63 octets, each of
-- a-z, 0-9 and the dash, and a letter or digit in front unless the slug of the component's id is empty.
pub label_for_app-IsLabel :
    (lower : ℕ → ℕ) (sha256_hex : Text → Text) (app : FleetApp)
    → ((s : Text) → All (λ c. is_slug_rune c ≡ true) (sha256_hex s))
    → (length (label_for_app lower sha256_hex app) ≤ 63)
      × All IsLegal (label_for_app lower sha256_hex app)
      × ((sanitize_slug lower app.component_id ≡ []) ⊎ IsLed (label_for_app lower sha256_hex app))
unfolding label_for_app
label_for_app-IsLabel lower sha256_hex app digits =
    let front = sanitize_slug lower app.component_id in
    let back = sanitize_slug lower app.env in
    let whole = front ++ 45 ∷ back in
    (
      dns_label-length sha256_hex whole,
      dns_label-IsLegal sha256_hex whole (All-IsLegal _ (digits whole)) (
          All-append IsLegal front (45 ∷ back) (sanitize_slug-IsLegal lower app.component_id)
            (refl, sanitize_slug-IsLegal lower app.env)),
      front_or_blank sha256_hex front (45 ∷ back) (sanitize_slug-Leads lower app.component_id),
    )
