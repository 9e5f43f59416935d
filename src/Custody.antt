-- ===== src/Custody.antt =====
-- custos/custody.py: external custody of the heads of audit chains.
pub mod Anchor
pub mod Sink
pub mod Manager
pub mod Verify
