-- ===== src/Sandbox.antt =====
-- The network of the node sandboxes: the pool of bridge subnets and the egress policy of the sidecar.
pub mod SubnetPool
pub mod Address
pub mod Policy
