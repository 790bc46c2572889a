-- ===== src/Backup.antt =====
-- The backup service: scottycore/services/backup/service.py with the schemas of
-- scottycore/services/backup/schemas.py.
pub mod Bundle
pub mod Service
pub mod Contributors
