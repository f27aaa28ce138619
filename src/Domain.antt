-- ===== src/Domain.antt =====
-- The rules of the domain package: confidence, impact, proposals and liveness.
pub mod Confidence
pub mod Impact
pub mod Proposals
pub mod Liveness
pub mod Urns
