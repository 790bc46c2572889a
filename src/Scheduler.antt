-- ===== src/Scheduler.antt =====
-- Recurring backups: scottycore/services/backup/scheduler.py over the tables of
-- scottycore/services/backup/models.py.
pub mod Tables
pub mod Sinks
pub mod Retention
pub mod Disk
pub mod Dispatch
