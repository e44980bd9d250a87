-- ===== src/Maintenance.antt =====
-- src/ancestree/maintenance.py
pub mod Compact
pub mod Prune
pub mod Sweep
