-- ===== src/Service.antt =====
-- The deployment service: backend/app/control_plane/service.py.
pub mod Query
pub mod Session
pub mod Reachability
pub mod Actions
pub mod Create
pub mod Rows
pub mod Locking
pub mod Perform
pub mod Order
pub mod History
