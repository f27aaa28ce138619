-- ===== src/Tests.antt =====
-- Tests at concrete inputs, and the theorems applied to them.
mod Lanes
mod Commands
mod Deliveries
mod Promotions
mod Rules
mod Publications
mod Reviews
mod Evidences
mod Workflows
mod Urns
mod Definitions
