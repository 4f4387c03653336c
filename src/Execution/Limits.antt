-- ===== src/Execution/Limits.antt =====
-- internal/domain/execution.go with ExecutionStatus, Language and NetworkMode of internal/domain/types.go.
-- A JSON map is a list of entries.
mod Accepted
mod Marks
mod Tests
use runtime_service.Base.{
  saturated, ℕ, zero, suc, codes, Bool, true, false, not, ◌&&◌, ◌||◌, ◌==◌, if◌then◌else◌, ℤ, pos,
  negsuc, pos_part, neg_part, ◌-ℤ◌, ltb_ℤ, eq_ℤ, wrap, ◌/◌, List, [], ◌∷◌, Option, none, some, Text,
}
use runtime_service.Errors.{
  domain, invalid_id, invalid_data, invalid_language, empty_code, invalid_vcpu, invalid_memory,
  invalid_timeout, invalid_network_mode, Result, ok, err, refuse_if, ◌>>◌,
}

pub data ExecutionStatus : Type 0 where
  pending queued running completed failed timeout cancelled : ExecutionStatus
  other_status : Text → ExecutionStatus

unfoldable pub status_is_valid : ExecutionStatus → Bool
status_is_valid (other_status _) = false
status_is_valid _ = true

unfoldable pub status_is_terminal : ExecutionStatus → Bool
status_is_terminal completed = true
status_is_terminal failed = true
status_is_terminal timeout = true
status_is_terminal cancelled = true
status_is_terminal _ = false

pub data Language : Type 0 where
  go python java_script type_script rust c cpp bash : Language
  other_language : Text → Language

unfoldable pub language_is_valid : Language → Bool
language_is_valid (other_language _) = false
language_is_valid _ = true

pub data NetworkMode : Type 0 where
  isolated bridged host : NetworkMode
  other_mode : Text → NetworkMode

unfoldable pub mode_is_valid : NetworkMode → Bool
mode_is_valid (other_mode _) = false
mode_is_valid _ = true

-- The empty mode.
abbrev pub is_unset : NetworkMode → Bool
is_unset (other_mode []) = true
is_unset _ = false

pub record ResourceLimit : Type 0 where
  pub vcpu : ℤ
  pub memory_mb : ℤ
  pub timeout_sec : ℤ
  pub network : NetworkMode
  pub disk_mb : ℤ
  pub disk_bandwidth_mbps : ℤ
  pub disk_iops : ℤ
  pub network_bandwidth_mbps : ℤ
  pub network_pps : ℤ

abbrev outside : ℤ → ℕ → ℕ → Bool
outside x low high = ltb_ℤ x (pos low) || ltb_ℤ (pos high) x

unfoldable pub validate_limit : ResourceLimit → Result (Unit {0})
validate_limit r = do
  refuse_if (outside r.vcpu 1 8) (domain invalid_vcpu)
  refuse_if (outside r.memory_mb 32 4096) (domain invalid_memory)
  refuse_if (outside r.timeout_sec 1 600) (domain invalid_timeout)
  refuse_if (not (is_unset r.network) && not (mode_is_valid r.network))
      (domain invalid_network_mode)
  ok tt

abbrev pub or_default : ℤ → ℕ → ℤ
or_default x d = if eq_ℤ x (pos 0) then pos d else x

unfoldable pub apply_defaults : ResourceLimit → ResourceLimit
apply_defaults r = record r {
  vcpu = or_default r.vcpu 1;
  memory_mb = or_default r.memory_mb 128;
  timeout_sec = or_default r.timeout_sec 30;
  network = if is_unset r.network then isolated else r.network;
  disk_mb = or_default r.disk_mb 256;
}

pub record Execution : Type 0 where
  pub id : ℕ
  pub organization_id : ℕ
  pub requested_by : ℕ
  pub node_id : Option ℕ
  pub workflow_id : Option ℕ
  pub language : Language
  pub code : Text
  pub stdin : Text
  pub args : List (Text × Text)
  pub env_vars : List (Text × Text)
  pub status : ExecutionStatus
  pub exit_code : Option ℤ
  pub stdout : Text
  pub stderr : Text
  pub error : Text
  pub vm_id : Option ℕ
  pub resources : ResourceLimit
  pub started_at : Option ℤ
  pub completed_at : Option ℤ
  pub duration_ms : Option ℤ
  pub created_at : ℤ
  pub updated_at : ℤ

abbrev pub is_empty : Text → Bool
is_empty [] = true
is_empty (_ ∷ _) = false

unfoldable pub validate : Execution → Result (Unit {0})
validate e = do
  refuse_if (e.id == 0) (domain invalid_id)
  refuse_if (e.organization_id == 0) (domain invalid_id)
  refuse_if (e.requested_by == 0) (domain invalid_id)
  refuse_if (not (language_is_valid e.language)) (domain invalid_language)
  refuse_if (is_empty e.code) (domain empty_code)
  refuse_if (not (status_is_valid e.status)) (domain invalid_data)
  validate_limit e.resources

-- time.Duration.Milliseconds, which rounds toward zero.
abbrev negated : ℕ → ℤ
negated zero = pos zero
negated (suc n) = negsuc n

abbrev pub milliseconds : ℤ → ℤ
milliseconds (pos n) = pos (n / 1000000)
milliseconds (negsuc n) = negated (suc n / 1000000)

abbrev pub duration : Option ℤ → ℤ → Option ℤ → Option ℤ
duration none now old = old
duration (some started) now old = some (milliseconds (saturated (now -ℤ started)))

unfoldable pub mark_running : ℤ → ℕ → Execution → Execution
mark_running now vm e = record e { status = running; vm_id = some vm; started_at = some now }

unfoldable pub mark_completed : ℤ → ℤ → Text → Text → Execution → Execution
mark_completed now exit out errors e = record e {
  status = completed;
  exit_code = some exit;
  stdout = out;
  stderr = errors;
  completed_at = some now;
  duration_ms = duration e.started_at now e.duration_ms;
}

unfoldable pub mark_failed : ℤ → Text → ℤ → Text → Text → Execution → Execution
mark_failed now message exit out errors e = record e {
  status = failed;
  error = message;
  exit_code = some exit;
  stdout = out;
  stderr = errors;
  completed_at = some now;
  duration_ms = duration e.started_at now e.duration_ms;
}

abbrev timeout_message : Text
timeout_message = codes "execution timeout exceeded"

unfoldable pub mark_timeout : ℤ → Text → Text → Execution → Execution
mark_timeout now out errors e = record e {
  status = timeout;
  error = timeout_message;
  stdout = out;
  stderr = errors;
  completed_at = some now;
  duration_ms = duration e.started_at now e.duration_ms;
}
