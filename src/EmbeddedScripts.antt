-- ===== src/EmbeddedScripts.antt =====
-- scripts/check_no_embedded_scripts.py: the count of embedded scripts, per category and file, and
-- the ratchet that lets the counts only go down.
pub mod Patterns
pub mod Tasks
pub mod Scan
pub mod Ratchet
