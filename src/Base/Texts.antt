-- ===== src/Base/Texts.antt =====
-- Text as the list of its code points: equality, splitting, white space, and the literals of the source.
use Prim.Native.Nat.{ℕ}
use Prim.Native.Char.{code}
use Prim.Native.String.{String}
use mathlib.Core.Path.{◌≡◌, refl}
use mathlib.Core.Logic.{inl, inr}
use mathlib.Core.Bool.{Bool, true, false, not, ◌&&◌, ◌||◌}
use mathlib.Core.List.{List, [], ◌∷◌, ◌++◌}
use native.Mathlib.Omega.{arith}
use runtime_service.Base.Tests.{leb, ◌==◌, ==_iff, if◌then◌else◌, Bool-cases}
use runtime_service.Base.Lists.{some_of}

abbrev pub Text : Type 0
Text = List ℕ

-- The code points of a literal.
abbrev pub codes : String → Text
codes String.[] = []
codes (String.◌∷◌ c s) = code c ∷ codes s

abbrev pub text_eq : Text → Text → Bool
text_eq [] [] = true
text_eq [] (d ∷ t) = false
text_eq (c ∷ s) [] = false
text_eq (c ∷ s) (d ∷ t) = c == d && text_eq s t

pub text_eq→eq : (s t : Text) → text_eq s t ≡ true → s ≡ t
text_eq→eq [] [] h = refl
text_eq→eq [] (d ∷ t) h = cc
text_eq→eq (c ∷ s) [] h = cc
text_eq→eq (c ∷ s) (d ∷ t) h = ground (arith, text_eq→eq s t)

pub text_eq_refl : (s : Text) → text_eq s s ≡ true
text_eq_refl [] = refl
text_eq_refl (c ∷ s) = ground (arith, text_eq_refl s)

-- unicode.IsSpace.
abbrev pub is_space : ℕ → Bool
is_space c =
    (leb 9 c && leb c 13)
    || c == 32
    || c == 0x85
    || c == 0xa0
    || c == 0x1680
    || (leb 0x2000 c && leb c 0x200a)
    || c == 0x2028
    || c == 0x2029
    || c == 0x202f
    || c == 0x205f
    || c == 0x3000

-- strings.TrimSpace(s) == "".
abbrev pub is_blank : Text → Bool
is_blank s = not (some_of (λ c. not (is_space c)) s)

-- strings.Split(s, sep) at a separator of one character: never empty.
abbrev pub extend : ℕ → List Text → List Text
extend c [] = (c ∷ []) ∷ []
extend c (p ∷ ps) = (c ∷ p) ∷ ps

abbrev pub split : ℕ → Text → List Text
split sep [] = [] ∷ []
split sep (c ∷ s) = let rest = split sep s in if c == sep then [] ∷ rest else extend c rest

-- The parts with the separator between them.
abbrev pub join : ℕ → List Text → Text
join sep [] = []
join sep (p ∷ []) = p
join sep (p ∷ q ∷ ps) = p ++ sep ∷ join sep (q ∷ ps)

abbrev pub contains_text : Text → List Text → Bool
contains_text t [] = false
contains_text t (s ∷ ss) = text_eq s t || contains_text t ss

join-extend :
    (sep c : ℕ) (p : Text) (ps : List Text) → join sep (extend c (p ∷ ps)) ≡ c ∷ join sep (p ∷ ps)
join-extend sep c p [] = refl
join-extend sep c p (q ∷ ps) = refl

-- A split is never empty.
pub split-cons : (sep : ℕ) (s : Text) → (p : Text) × (ps : List Text) × (split sep s ≡ p ∷ ps)
split-cons sep [] = ([], [], refl)
split-cons sep (c ∷ s) = elim (Bool-cases (c == sep)) [
  | inl e ↦ ([], split sep s, rw e)
  | inr e ↦ let (p, ps, h) = split-cons sep s in (c ∷ p, ps, rw (e, h))
]

pub join-split : (sep : ℕ) (s : Text) → join sep (split sep s) ≡ s
join-split sep [] = refl
join-split sep (c ∷ s) =
    let (p, ps, h) = split-cons sep s in
    let ih : join sep (p ∷ ps) ≡ s = rw (← h) (join-split sep s) in
    elim (Bool-cases (c == sep)) [
      | inl e ↦ let same = (==_iff c sep).0 e in rw (e, h) (rw (ih, same))
      | inr e ↦ rw (e, h) (rw (join-extend sep c p ps, ih))
    ]

-- A text without the separator is one part.
pub split-join_cons :
    (sep : ℕ) (p : Text) (s : Text)
    → some_of (λ c. c == sep) p ≡ false
    → split sep (p ++ sep ∷ s) ≡ p ∷ split sep s
split-join_cons sep [] s h = rw ((==_iff sep sep).1 refl)
split-join_cons sep (c ∷ p) s h =
    let other : (c == sep) ≡ false = ground arith in
    rw (other, split-join_cons sep p s (ground arith))

pub split_single : (sep : ℕ) (p : Text) → some_of (λ c. c == sep) p ≡ false → split sep p ≡ p ∷ []
split_single sep [] h = refl
split_single sep (c ∷ p) h =
    let other : (c == sep) ≡ false = ground arith in rw (other, split_single sep p (ground arith))
