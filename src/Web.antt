-- ===== src/Web.antt =====
-- cmd/tun2proxy-web: the control program's saved configurations, backends and routes.
pub mod Config
pub mod Profiles
pub mod Backend
pub mod Routes
pub mod Certificates
pub mod Mounts
pub mod Actions
mod Tests
mod HostTests
mod MountTests
