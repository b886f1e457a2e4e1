-- ===== src/Node.antt =====
-- pkg/driver/node_server.go, operation by operation. The proofs are in the children.
pub mod Stage
pub mod Publish
pub mod Info
pub mod Mounts
pub mod Blind
pub mod Real
