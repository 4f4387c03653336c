-- ===== src/Execution/TestRun/Transient.antt =====
-- IsTransientError of internal/domain/test_run.go on messages that wrap others.
use runtime_service.Base.{
  ◌≡◌, refl, sym, ap, ◌∙◌, Bool, true, List, [], ◌∷◌, ◌++◌, map, Text, some_of, arith,
}
use runtime_service.Execution.TestRun.{
  starts_with, has_substring, lower, transient_markers, is_transient_error,
}

starts_with_nothing : (s : Text) → starts_with s [] ≡ true
starts_with_nothing [] = refl
starts_with_nothing (c ∷ s) = refl

starts_with-append : (s m q : Text) → starts_with s m ≡ true → starts_with (s ++ q) m ≡ true
starts_with-append s [] q h = starts_with_nothing (s ++ q)
starts_with-append [] (d ∷ m) q h = cc
starts_with-append (c ∷ s) (d ∷ m) q h = ground (arith, starts_with-append s m q)

has_start : (s m : Text) → starts_with s m ≡ true → has_substring s m ≡ true
has_start [] m h = h
has_start (c ∷ s) m h = rw h refl

has_substring-append : (s m q : Text) → has_substring s m ≡ true → has_substring (s ++ q) m ≡ true
has_substring-append [] m q h = has_start ([] ++ q) m (starts_with-append [] m q h)
has_substring-append (c ∷ s) m q h =
    ground (arith, starts_with-append (c ∷ s) m q, has_substring-append s m q)

has_substring-after : (p s m : Text) → has_substring s m ≡ true → has_substring (p ++ s) m ≡ true
has_substring-after [] s m h = h
has_substring-after (c ∷ p) s m h = ground (arith, has_substring-after p s m h)

map-lower-append : (s t : Text) → map lower (s ++ t) ≡ map lower s ++ map lower t
map-lower-append [] t = refl
map-lower-append (c ∷ s) t = ap (λ r. lower c ∷ r) (map-lower-append s t)

some_of-all :
    (f g : Text → Bool) (ms : List Text)
    → ((m : Text) → f m ≡ true → g m ≡ true)
    → some_of f ms ≡ true
    → some_of g ms ≡ true
some_of-all f g [] h k = k
some_of-all f g (m ∷ ms) h k = ground (arith, h m, some_of-all f g ms h)

is_transient_iff :
    (s : Text) → is_transient_error s ≡ some_of (has_substring (map lower s)) transient_markers
unfolding is_transient_error transient_markers
is_transient_iff [] = refl
is_transient_iff (c ∷ s) = refl

-- A message that is transient stays so when text is put before it and after it.
pub transient_wrapped :
    (before s after : Text)
    → is_transient_error s ≡ true
    → is_transient_error (before ++ (s ++ after)) ≡ true
transient_wrapped before s after h =
    let t : some_of (has_substring (map lower s)) transient_markers ≡ true =
      sym (is_transient_iff s) ∙ h in
    rw
      (
        is_transient_iff (before ++ (s ++ after)),
        map-lower-append before (s ++ after),
        map-lower-append s after,
      )
      (some_of-all (has_substring (map lower s)) _ transient_markers
        (λ m k.
          has_substring-after (map lower before) (map lower s ++ map lower after) m
            (has_substring-append (map lower s) m (map lower after) k))
        t)
