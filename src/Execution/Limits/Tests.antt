-- ===== src/Execution/Limits/Tests.antt =====
-- An execution that runs for a second and a half.
use runtime_service.Base.{◌≡◌, ◌≢◌, ◌↔◌, true, pos, [], codes, none}
use runtime_service.Errors.{ok}
use runtime_service.Execution.Limits.{
  ResourceLimit, other_mode, Execution, go, pending, validate, language_is_valid, status_is_valid,
}
use runtime_service.Execution.Limits.Accepted.{IsInBounds, validate_iff}

abbrev limits : ResourceLimit
limits = record {
  vcpu = pos 0;
  memory_mb = pos 64;
  timeout_sec = pos 0;
  network = other_mode [];
  disk_mb = pos 0;
  disk_bandwidth_mbps = pos 0;
  disk_iops = pos 0;
  network_bandwidth_mbps = pos 0;
  network_pps = pos 0;
}

abbrev execution : Execution
execution = record {
  id = 1;
  organization_id = 2;
  requested_by = 3;
  node_id = none;
  workflow_id = none;
  language = go;
  code = codes "package main";
  stdin = [];
  args = [];
  env_vars = [];
  status = pending;
  exit_code = none;
  stdout = [];
  stderr = [];
  error = [];
  vm_id = none;
  resources = limits;
  started_at = none;
  completed_at = none;
  duration_ms = none;
  created_at = pos 0;
  updated_at = pos 0;
}

validate_iff_example : (validate execution ≡ ok tt) ↔ (
    (execution.id ≢ 0)
    × (execution.organization_id ≢ 0)
    × (execution.requested_by ≢ 0)
    × (language_is_valid execution.language ≡ true)
    × (execution.code ≢ [])
    × (status_is_valid execution.status ≡ true)
    × IsInBounds execution.resources)
validate_iff_example = validate_iff execution
