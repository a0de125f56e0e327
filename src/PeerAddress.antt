-- ===== src/PeerAddress.antt =====
-- The addresses `<model>@<node>` (proxy/peeraddress.go): the grammar, what is polled of a peer, and
-- the resolution of an address to a peer and a model.
pub mod Grammar
pub mod Split
pub mod Capability
pub mod Snapshot
pub mod Coherent
pub mod Directory
pub mod Cache
pub mod Resolve
mod Tests
