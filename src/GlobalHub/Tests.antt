-- ===== src/GlobalHub/Tests.antt =====
-- The theorems of the global hub at concrete inputs.
mod Policies
mod Controllers
