-- ===== src/Wgtun.antt =====
-- pkg/wgtun: the tunnel that the helper brings up, its network and its routes.
pub mod Addresses
pub mod Plan
pub mod Routes
pub mod Commands
pub mod Darwin
pub mod Linux
pub mod Windows
pub mod Up
