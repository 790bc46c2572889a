-- ===== src/Auth.antt =====
-- Authentication: the service scottycore/services/auth, the endpoints of scottycore/api/v1/auth.py
-- and the resolver of a request's identity in scottycore/core/auth.py.
pub mod Lockout
pub mod Tokens
pub mod Totp
pub mod Login
pub mod Resolve
pub mod Endpoints
