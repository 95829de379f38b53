-- ===== src/Syncer/Tests.antt =====
-- The theorems of the syncer at concrete inputs, and runs of its definitions.
mod Specs
mod Statuses
mod Workers
