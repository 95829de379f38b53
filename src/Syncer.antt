-- ===== src/Syncer.antt =====
-- The syncer, syncer/: one controller applies specs from the global hub to a regional hub (syncer.go
-- and specsyncer.go), the other applies status and a summary of the regional hub to the global hub
-- (syncer.go and statussyncer.go).
pub mod Controller
pub mod Equality
pub mod Handlers
pub mod Spec
pub mod Summary
pub mod Status
pub mod Worker
pub mod Start
pub mod Samples
mod Tests
