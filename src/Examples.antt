-- ===== src/Examples.antt =====
-- The theorems at concrete inputs.
mod World
mod Tunnels
mod Leases
mod Files
mod SignIn
mod Service
mod Network
mod Logins
mod Sockets
mod Pushes
mod Whole
