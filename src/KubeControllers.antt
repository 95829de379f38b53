-- ===== src/KubeControllers.antt =====
-- The controllers of Kubernetes that the server runs, server/controllers/kubecontroller: the options of
-- the certificate signers and the start of these signers.
pub mod Signing
pub mod Manager
pub mod Initializers
pub mod Options
pub mod Run
mod Tests
