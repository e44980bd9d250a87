-- ===== src/Domain.antt =====
-- src/ancestree/domain: the transition rules and the identity of a node's content.
pub mod Rules
pub mod Fingerprint
pub mod Metadata
