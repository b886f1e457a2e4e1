-- ===== src/Controller.antt =====
-- pkg/driver/controller_server.go, operation by operation. The proofs are in the children.
pub mod Size
pub mod Statuses
pub mod Wait
pub mod Create
pub mod Delete
pub mod Publish
pub mod Unpublish
pub mod Expand
pub mod Query
pub mod Places
