-- ===== src/Tests.antt =====
-- Concrete runs of the models, and each theorem with hypotheses at an input that meets them.
mod Toy
mod Audit
mod Custody
mod RateLimiter
mod Policy
mod McpProxy
mod ActionGate
mod Execution
mod Tenant
mod Retention
mod Firewall
mod Service
mod Startup
