-- ===== src/GlobalHub.antt =====
-- The controllers of the global hub, server/controllers/globalhubcontroller: one generic controller
-- with a queue (generic_controller.go), and the reconcilers that it runs for policies, placement
-- bindings and placement rules.
pub mod Compliance
pub mod Labels
pub mod Policy
pub mod Generic
pub mod Run
pub mod Crds
pub mod Samples
mod Tests
