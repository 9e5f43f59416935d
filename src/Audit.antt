-- ===== src/Audit.antt =====
-- custos/audit.py: the hash-chained audit log. The children model the record and its hash
-- preimage, the storage backends, and the chain; the modules below those hold the proofs.
pub mod Record
pub mod Preimage
pub mod Store
pub mod Chain
