-- ===== src/Errors.antt =====
-- The error sentinels of internal/domain, one data type for each file or group of them, and the
-- result of a fallible operation. A wrapped sentinel (fmt.Errorf with %w) is the sentinel.
use runtime_service.Base.{ℕ, ◌≡◌, refl, ◌↔◌, ◌⊎◌, inl, inr, Bool, true, false}

-- internal/domain/errors.go.
pub data DomainError : Type 0 where
  invalid_id invalid_data : DomainError
  execution_not_found execution_already_done invalid_language empty_code : DomainError
  resource_limit_exceeded timeout_exceeded : DomainError
  vm_not_found vm_not_ready vm_already_terminated vm_pool_exhausted vm_start_failed : DomainError
  snapshot_not_found snapshot_create_fail snapshot_restore_fail : DomainError
  invalid_vcpu invalid_memory invalid_timeout invalid_network_mode : DomainError
  vm_instance_not_found invalid_vm_state : DomainError
  no_host_available host_not_found : DomainError
  graph_not_found graph_not_active graph_has_cycle graph_node_not_found : DomainError
  graph_edge_not_found graph_execution_not_found node_execution_not_found : DomainError
  debug_session_not_found debug_session_not_paused : DomainError
  trace_not_found traces_not_comparable replay_session_not_found : DomainError
  replay_index_out_of_bounds : DomainError
  terminal_session_not_found terminal_session_closed terminal_vm_not_ready : DomainError
  legacy_graph node_ref_required legacy_node_input invalid_node_ref invalid_port_spec : DomainError
  invalid_secret_spec invalid_role invalid_egress_pattern plan_invalid : DomainError
  seeded_outputs_retired secret_token_required secret_token_unexpected : DomainError
  environment_required environment_invalid environment_unexpected : DomainError
  required_secret_absent trigger_input_invalid node_config_invalid node_failed : DomainError
  no_response multiple_responses graph_debug_retired bundle_pull_failed : DomainError
  node_runner_not_ready node_runner_busy : DomainError
  egress_audit_blind egress_audit_gap egress_audit_malformed hash_mismatch : DomainError

-- internal/domain/fleet_errors.go, from the first sentinel to the activation errors.
pub data FleetError : Type 0 where
  fleet_host_not_found fleet_app_not_found fleet_app_owner_org_required : FleetError
  app_backs_durable_resource replica_not_found placement_not_found route_not_found : FleetError
  ingress_host_taken volume_not_found invalid_host_health : FleetError
  host_capacity_unmeasured host_capacity_over_advertised host_disk_reserve_invalid : FleetError
  host_failure_domain_required host_failure_domain_invalid host_region_required : FleetError
  ha_hosts_insufficient ha_failure_domain_unattested ha_failure_domain_shared : FleetError
  ha_region_split ha_availability_class_invalid ha_placement_unknowable : FleetError
  no_schedulable_host volume_backend_unavailable volume_app_not_scalable : FleetError
  volume_restore_in_progress volumes_not_supported volume_owned_by_live_resource : FleetError
  volume_claim_conflict stateful_host_unavailable activation_timeout : FleetError

-- internal/domain/fleet_errors.go, from the wake refusal to the end.
pub data FenceError : Type 0 where
  anonymous_wake_refused pause_unsafe_for_resident_vm vm_class_undeclared : FenceError
  net_coordinate_out_of_range net_lease_exhausted net_lease_conflict : FenceError
  net_lease_not_found host_net_ordinal_unset net_ordinal_exhausted : FenceError
  net_plane_unreconciled replica_host_mismatch volume_host_mismatch : FenceError
  vm_termination_unproven : FenceError

-- internal/domain/fleet_resource_errors.go, the endpoint naming group.
pub data EndpointError : Type 0 where
  zone_required region_required zone_invalid region_invalid id_invalid : EndpointError
  host_too_long mint_failed taken mint_exhausted : EndpointError

-- internal/domain/image_workload_errors.go, the missing workload and the two refusals of a boot's secrets, and the missing claim of internal/domain/fleet_resource_errors.go.
pub data BootError : Type 0 where
  secret_resolver_unavailable secret_owner_org_missing resource_not_found : BootError
  workload_not_found : BootError

-- internal/domain/fleet_resource_errors.go, the refusals of a restore.
pub data RestoreError : Type 0 where
  restore_integrity restore_engine_not_admitting restore_no_prerestore_anchor : RestoreError

-- `external` is an error of code that is not in the repository, by a number that tells them apart.
pub data Err : Type 0 where
  domain : DomainError → Err
  fleet : FleetError → Err
  fence : FenceError → Err
  endpoint : EndpointError → Err
  boot : BootError → Err
  restore : RestoreError → Err
  external : ℕ → Err

-- A failed operation has an error and no value.
pub data Result {ℓ} (Value : Type ℓ) : Type ℓ where
  err : Err → Result Value
  ok : Value → Result Value

-- Whether the operation succeeded.
abbrev pub is_ok {ℓ} : {Value : Type ℓ} → Result Value → Bool
is_ok (err _) = false
is_ok (ok _) = true

-- `if err != nil { return err }` before what follows.
infixl 5 ◌>>=◌
abbrev pub ◌>>=◌ {ℓ κ} :
    {Value : Type ℓ} {Next : Type κ} → Result Value → (Value → Result Next) → Result Next
err failure >>= next = err failure
ok value >>= next = next value

-- `if failing { return e }`.
abbrev pub refuse_if : Bool → Err → Result (Unit {0})
refuse_if true e = err e
refuse_if false e = ok tt

-- The same for an operation whose result is its success only.
infixl 5 ◌>>◌
abbrev pub ◌>>◌ {ℓ} : {Next : Type ℓ} → Result (Unit {0}) → Result Next → Result Next
first >> next = first >>= λ done. next

pub Result-cases {ℓ} :
    {A : Type ℓ} (r : Result A) → ((a : A) × (r ≡ ok a)) ⊎ ((e : Err) × (r ≡ err e))
Result-cases (ok a) = inl (a, refl)
Result-cases (err e) = inr (e, refl)

-- A sequence that succeeds has parts that succeed.
pub bind-ok {ℓ κ} :
    {A : Type ℓ} {B : Type κ} (m : Result A) (k : A → Result B) (b : B)
    → (m >>= k) ≡ ok b
    → (a : A) × (m ≡ ok a) × (k a ≡ ok b)
bind-ok (ok a) k b h = (a, refl, h)
bind-ok (err e) k b h = cc

-- A guard before the rest succeeds when the guard does not refuse and the rest succeeds.
pub refuse_if-ok :
    (failing : Bool) (e : Err) (k : Result (Unit {0}))
    → ((refuse_if failing e >> k) ≡ ok tt) ↔ ((failing ≡ false) × (k ≡ ok tt))
refuse_if-ok true e k = (λ h. cc, λ (h, _). cc)
refuse_if-ok false e k = (λ h. (refl, h), λ (_, h). h)
