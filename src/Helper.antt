-- ===== src/Helper.antt =====
-- pkg/helper/helper.go, the privileged process that owns the tunnel.
pub mod State
pub mod Enroll
pub mod Renew
pub mod Requests
pub mod Steps
pub mod Writes
pub mod OneTunnel
pub mod Handlers
pub mod Allowed
pub mod Configured
pub mod Numbered
pub mod Stops
pub mod GiveBack
pub mod Retry
pub mod Loop
pub mod Replies
pub mod Connects
pub mod RenewLoop
pub mod Contract
