-- ===== src/Net/Lease.antt =====
-- internal/domain/fleet_net_lease.go and the subnet test of internal/domain/fleet_network.go.
-- Go's int is ℤ, with `wrap` where a sum may leave 64 bits.
pub mod Coordinates
mod Tests
use runtime_service.Base.{
  ℕ, ◌+◌, ◌*◌, ◌/◌, ◌%◌, String, Bool, true, false, not, ◌&&◌, ◌||◌, ltb, leb, ◌==◌, ◌=ˢ◌,
  if◌then◌else◌, ℤ, pos, negsuc, pos_part, ◌+ℤ◌, ltb_ℤ, leb_ℤ, eq_ℤ, wrap,
}
use runtime_service.Errors.{Err, fence, net_coordinate_out_of_range, Result, ok, err}

abbrev pub net_slot_stride : ℕ
net_slot_stride = 1024

abbrev pub net_max_slot : ℕ
net_max_slot = 1023

abbrev pub net_max_ordinal : ℕ
net_max_ordinal = 15

abbrev pub net_max_index : ℕ
net_max_index = 16383

abbrev pub net_index_ip_stride : ℕ
net_index_ip_stride = 4

-- The text of an IP address: four decimal octets with dots (what `%d.%d.%d.%d` prints), or any other.
pub data Address : Type 0 where
  dotted : ℕ → ℕ → ℕ → ℕ → Address
  other_text : String → Address

abbrev pub address_eq : Address → Address → Bool
address_eq (dotted a b c d) (dotted e f g h) = a == e && (b == f && (c == g && d == h))
address_eq (other_text s) (other_text t) = s =ˢ t
address_eq (dotted _ _ _ _) (other_text _) = false
address_eq (other_text _) (dotted _ _ _ _) = false

-- The text of a device name: what `img%d` prints, or any other.
pub data TapName : Type 0 where
  img : ℤ → TapName
  named : String → TapName

abbrev pub tap_eq : TapName → TapName → Bool
tap_eq (img m) (img n) = eq_ℤ m n
tap_eq (named s) (named t) = s =ˢ t
tap_eq (img _) (named _) = false
tap_eq (named _) (img _) = false

pub data NetLeaseOwnerKind : Type 0 where
  replica workload : NetLeaseOwnerKind
  unrecognized : String → NetLeaseOwnerKind

unfoldable pub kind_is_valid : NetLeaseOwnerKind → Bool
kind_is_valid replica = true
kind_is_valid workload = true
kind_is_valid (unrecognized _) = false

abbrev pub kind_eq : NetLeaseOwnerKind → NetLeaseOwnerKind → Bool
kind_eq replica replica = true
kind_eq workload workload = true
kind_eq (unrecognized s) (unrecognized t) = s =ˢ t
kind_eq _ _ = false

-- Ids are 128-bit numbers, 0 for uuid.Nil; instants are numbers, 0 for the zero time.
pub record NetLease : Type 0 where
  pub id : ℕ
  pub host_id : ℕ
  pub host_ordinal : ℤ
  pub local_slot : ℤ
  pub net_index : ℤ
  pub host_ip : Address
  pub guest_ip : Address
  pub tap_name : TapName
  pub vm_uid : ℤ
  pub owner_kind : NetLeaseOwnerKind
  pub owner_id : ℕ
  pub created_at : ℕ
  pub updated_at : ℕ

-- A bare IPv4 address inside 10.201.0.0/16.
unfoldable pub in_fleet_subnet : Address → Bool
in_fleet_subnet (dotted a b c d) = (a == 10 && b == 201) && (leb c 255 && leb d 255)
in_fleet_subnet (other_text _) = false

abbrev pub out_of_range {ℓ} : {A : Type ℓ} → Result A
out_of_range = err (fence net_coordinate_out_of_range)

-- The lease of one net index, before the final assertion.
unfoldable pub coordinates : ℤ → ℤ → ℤ → ℤ → NetLease
coordinates host_ordinal local_slot uid_base net_index =
    let base = pos_part net_index * net_index_ip_stride in
    record {
      id = 0;
      host_id = 0;
      host_ordinal = host_ordinal;
      local_slot = local_slot;
      net_index = net_index;
      host_ip = dotted 10 201 (base / 256) (base % 256 + 1);
      guest_ip = dotted 10 201 (base / 256) (base % 256 + 2);
      tap_name = img local_slot;
      vm_uid = wrap (uid_base +ℤ local_slot);
      owner_kind = unrecognized "";
      owner_id = 0;
      created_at = 0;
      updated_at = 0;
    }

-- The refusals on the arguments leave both in range, so the index is the product's and sum's own value.
unfoldable pub net_index_of : ℤ → ℤ → ℤ
net_index_of host_ordinal local_slot =
    pos (pos_part host_ordinal * net_slot_stride + pos_part local_slot)

unfoldable pub derive_net_lease : ℤ → ℤ → ℤ → Result NetLease
unfolding coordinates net_index_of in_fleet_subnet
derive_net_lease host_ordinal local_slot uid_base =
    let net_index = net_index_of host_ordinal local_slot in
    let lease = coordinates host_ordinal local_slot uid_base net_index in
    if ltb_ℤ host_ordinal (pos 0) || ltb_ℤ (pos net_max_ordinal) host_ordinal
    then out_of_range
    else if ltb_ℤ local_slot (pos 1) || ltb_ℤ (pos net_max_slot) local_slot
    then out_of_range
    else if leb_ℤ uid_base (pos 0)
    then out_of_range
    else if ltb_ℤ net_index (pos 1) || ltb_ℤ (pos net_max_index) net_index
    then out_of_range
    else if not (in_fleet_subnet lease.host_ip) || not (in_fleet_subnet lease.guest_ip)
    then out_of_range
    else ok lease

unfoldable pub matches_addresses : NetLease → Address → TapName → Bool
matches_addresses l guest_ip tap_name = address_eq l.guest_ip guest_ip && tap_eq l.tap_name tap_name
