-- ===== src/Auth.antt =====
-- The auth crate: crates/auth/src. A text is the list of its code points.
pub mod Texts
pub mod Error
pub mod Scope
pub mod Challenge
pub mod IpAddresses
pub mod EndpointPolicy
