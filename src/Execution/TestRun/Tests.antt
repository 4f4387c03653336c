-- ===== src/Execution/TestRun/Tests.antt =====
-- A run that meets three transient errors.
use runtime_service.Base.{
  ◌+◌, ◌≤◌, ◌≡◌, refl, ◌⊎◌, true, false, ℤ, pos, pos_part, List, [], ◌∷◌, none, codes, Text, arith,
}
use runtime_service.Execution.TestRun.{
  TestRun, running, is_transient_error, transient_markers, retry_limit, retries,
}
use runtime_service.Execution.TestRun.Retries.{retries_bounded}

abbrev fresh : TestRun
fresh = record {
  status = running;
  passed_count = pos 0;
  failed_count = pos 0;
  skipped_count = pos 0;
  total = pos 0;
  duration_ms = none;
  error_message = [];
  retry_count = pos 0;
  max_retries = pos 0;
  was_retried = false;
  quarantined = false;
  quarantined_at = none;
  updated_at = pos 0;
}

abbrev errors : List (ℤ × Text)
errors = (pos 1, codes "EOF") ∷ (pos 2, codes "no such host") ∷ (pos 3, codes "EOF") ∷ []

retries_bounded_example :
    (((retries errors fresh).0 ≡ 0)
      ⊎ (pos_part fresh.retry_count + (retries errors fresh).0 ≤ pos_part (retry_limit fresh)))
    × (pos_part (retries errors fresh).1.retry_count
        ≡ pos_part fresh.retry_count + (retries errors fresh).0)
retries_bounded_example =
    retries_bounded errors fresh
      (omega arith, (omega arith, omega arith), (omega arith, omega arith))

eof-IsTransient : is_transient_error (codes "EOF") ≡ true
unfolding is_transient_error transient_markers
eof-IsTransient = refl

-- A message of a JavaScript runner that has a marker inside a word.
type_error_is_transient : is_transient_error (codes "x is not a function: typeof x") ≡ true
unfolding is_transient_error transient_markers
type_error_is_transient = refl
