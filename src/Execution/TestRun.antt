-- ===== src/Execution/TestRun.antt =====
-- internal/domain/test_run.go. strings.ToLower maps the letters of ASCII, and the two letters beyond
-- ASCII whose lower case is in ASCII; other letters are left alone, which no marker can tell.
mod Retries
mod Transient
mod Tests
use runtime_service.Base.{
  ℕ, Bool, true, false, not, ◌&&◌, ◌||◌, ◌+◌, leb, ◌==◌, if◌then◌else◌, ℤ, pos, ◌+ℤ◌, leb_ℤ, ltb_ℤ,
  wrap, List, [], ◌∷◌, map, Option, none, some, Text, codes, some_of,
}

pub data TestRunStatus : Type 0 where
  running passed failed error cancelled : TestRunStatus
  other_status : Text → TestRunStatus

-- The fields that the operations read or write, but for the float of the coverage.
pub record TestRun : Type 0 where
  pub status : TestRunStatus
  pub passed_count : ℤ
  pub failed_count : ℤ
  pub skipped_count : ℤ
  pub total : ℤ
  pub duration_ms : Option ℤ
  pub error_message : Text
  pub retry_count : ℤ
  pub max_retries : ℤ
  pub was_retried : Bool
  pub quarantined : Bool
  pub quarantined_at : Option ℤ
  pub updated_at : ℤ

unfoldable pub mark_completed : ℤ → ℤ → ℤ → ℤ → ℤ → TestRun → TestRun
mark_completed now passes failures skips ms t = record t {
  passed_count = passes;
  failed_count = failures;
  skipped_count = skips;
  total = wrap (wrap (passes +ℤ failures) +ℤ skips);
  duration_ms = some ms;
  updated_at = now;
  status = if ltb_ℤ (pos 0) failures then failed else passed;
}

unfoldable pub mark_error : ℤ → Text → TestRun → TestRun
mark_error now message t = record t { status = error; error_message = message; updated_at = now }

unfoldable pub quarantine : ℤ → TestRun → TestRun
quarantine now t =
    if t.quarantined
    then t
    else record t { quarantined = true; quarantined_at = some now; updated_at = now }

unfoldable pub unquarantine : ℤ → TestRun → TestRun
unquarantine now t =
    if not t.quarantined
    then t
    else record t { quarantined = false; quarantined_at = none; updated_at = now }

abbrev pub lower : ℕ → ℕ
lower c =
    if leb 65 c && leb c 90
    then c + 32
    else if c == 0x212a
    then 107
    else if c == 0x130
    then 105
    else c

abbrev pub starts_with : Text → Text → Bool
starts_with s [] = true
starts_with [] (d ∷ t) = false
starts_with (c ∷ s) (d ∷ t) = c == d && starts_with s t

-- strings.Contains.
abbrev pub has_substring : Text → Text → Bool
has_substring [] t = starts_with [] t
has_substring (c ∷ s) t = starts_with (c ∷ s) t || has_substring s t

unfoldable pub transient_markers : List Text
transient_markers =
    codes "connection refused"
    ∷ codes "connection reset"
    ∷ codes "connection timed out"
    ∷ codes "i/o timeout"
    ∷ codes "deadline exceeded"
    ∷ codes "temporary failure in name resolution"
    ∷ codes "no such host"
    ∷ codes "tls handshake timeout"
    ∷ codes "eof"
    ∷ codes "broken pipe"
    ∷ codes "rate limit"
    ∷ codes "too many requests"
    ∷ codes "503 service unavailable"
    ∷ codes "502 bad gateway"
    ∷ codes "504 gateway timeout"
    ∷ codes "vm provisioning failed"
    ∷ codes "firecracker start timeout"
    ∷ codes "docker: error response from daemon"
    ∷ codes "image pull backoff"
    ∷ []

unfoldable pub is_transient_error : Text → Bool
is_transient_error [] = false
is_transient_error (c ∷ s) = some_of (has_substring (map lower (c ∷ s))) transient_markers

abbrev pub retry_limit : TestRun → ℤ
retry_limit t = if leb_ℤ t.max_retries (pos 0) then pos 2 else t.max_retries

unfoldable pub try_retry : ℤ → Text → TestRun → Bool × TestRun
try_retry now message t =
    if not (is_transient_error message)
    then (false, t)
    else if leb_ℤ (retry_limit t) t.retry_count
    then (false, t)
    else (
      true,
      record t {
        retry_count = wrap (t.retry_count +ℤ pos 1);
        was_retried = true;
        status = running;
        error_message = [];
        updated_at = now;
      },
    )

-- Retries for a sequence of errors, each with its instant: how many were granted, and the run after.
pub retries : List (ℤ × Text) → TestRun → ℕ × TestRun
retries [] t = (0, t)
retries ((now, message) ∷ es) t =
    let (granted, t') = try_retry now message t in
    let (n, u) = retries es t' in (if granted then n + 1 else n, u)
