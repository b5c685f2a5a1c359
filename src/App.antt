-- ===== src/App.antt =====
-- The app's side, pkg/appcore.
pub mod Config
pub mod Core
