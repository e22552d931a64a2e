-- ===== src/Tests.antt =====
-- The theorems at concrete inputs, and runs of the models.
mod Apply
mod Audit
mod Plays
mod Scripts
mod Health
mod Secrets
mod Chain
mod Contract
mod Lint
mod Scan
mod Pins
mod Guild
mod Bastion
mod Loops
mod Creds
