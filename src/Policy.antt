-- ===== src/Policy.antt =====
-- custos/policy_engine.py, opa_engine.py, hybrid_engine.py and policy_citation.py: the policy
-- engines, and the citation of their rules.
pub mod Rule
pub mod Luhn
pub mod Engine
pub mod Opa
pub mod Citation
