-- ===== src/Settings.antt =====
-- Settings in three tiers: the platform's, a tenant's and a user's.
pub mod Schemas
pub mod Rows
pub mod Service
pub mod Loading
pub mod Validation
pub mod Typed
pub mod RoundTrip
pub mod Secrets
