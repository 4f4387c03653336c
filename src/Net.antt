-- ===== src/Net.antt =====
-- The addressing plane of the fleet's microVMs: coordinates, lease table and allocator.
pub mod Lease
pub mod Table
pub mod Allocator
pub mod Plane
