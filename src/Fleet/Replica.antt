-- ===== src/Fleet/Replica.antt =====
-- internal/domain/fleet_replica.go, fleet_app.go and fleet_placement.go.
use runtime_service.Base.{ℕ, Bool, true, false, ℤ, List, Option, Text}

pub data ReplicaState : Type 0 where
  scheduled booting resident paused draining dead : ReplicaState
  other_state : Text → ReplicaState

unfoldable pub state_is_valid : ReplicaState → Bool
state_is_valid (other_state _) = false
state_is_valid _ = true

pub data RestartPolicy : Type 0 where
  always on_failure never : RestartPolicy
  other_policy : Text → RestartPolicy

unfoldable pub restart_policy_is_valid : RestartPolicy → Bool
restart_policy_is_valid (other_policy _) = false
restart_policy_is_valid _ = true

pub record Replica : Type 0 where
  pub id : ℕ
  pub app_id : ℕ
  pub host_id : Option ℕ
  pub image_repository : Text
  pub image_digest : Text
  pub state : ReplicaState
  pub endpoint : Text
  pub guest_ip : Text
  pub host_port : ℤ
  pub net_index : ℤ
  pub rootfs_path : Text
  pub socket_path : Text
  pub tap_name : Text
  pub port : ℤ
  pub pid : Option ℤ
  pub exit_code : Option ℤ
  pub restart_policy : RestartPolicy
  pub message : Text
  pub created_at : ℤ
  pub updated_at : ℤ

pub record FleetApp : Type 0 where
  pub id : ℕ
  pub component_id : Text
  pub env : Text
  pub image_repository : Text
  pub image_digest : Text
  pub owner_org : Text
  pub system_id : Text
  pub desired_replicas : ℤ
  pub min_replicas : ℤ
  pub max_replicas : ℤ
  pub scale_to_zero : Bool
  pub port : ℤ
  pub resources_vcpu : ℤ
  pub resources_mem_mb : ℤ
  pub restart_policy : RestartPolicy
  pub secret_refs : List Text
  pub idle_ttl_seconds : ℤ
  pub last_active_at : ℤ
  pub created_at : ℤ
  pub updated_at : ℤ

pub data PlacementConstraint : Type 0 where
  bin_pack spread affinity : PlacementConstraint
  other_constraint : Text → PlacementConstraint

unfoldable pub constraint_is_valid : PlacementConstraint → Bool
constraint_is_valid (other_constraint _) = false
constraint_is_valid _ = true
