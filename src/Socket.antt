-- ===== src/Socket.antt =====
-- How the helper opens its socket: pkg/helper/listen_windows.go and pkg/helper/listen_unix.go.
pub mod Windows
pub mod Unix
