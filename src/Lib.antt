-- ===== src/Lib.antt =====
-- The Claimward VPN client: the privileged helper that owns the tunnel and talks to the server, and
-- the unprivileged app that signs a person in and drives the helper over its socket.
--
-- The helper (Helper, with Wire, Client, Lease and Errors below it). A request of the app's arrives as
-- a `hproto.Request` and is answered by `handle`; a connect checks the server against the helper's own
-- configuration, enrolls there over HTTP, stops the tunnel that is up, and brings one up from the
-- answer. Each session has a renewal loop, a goroutine of its own, which renews the lease, enrolls again
-- when the server forgot the device (404), and takes the tunnel down when access was withdrawn (403).
--   Errors: Go's errors as values, `client.ServerError` and `errors.As`.
--   Lease, Lease/Delay: `renewDelay` of pkg/helper/helper.go and of pkg/appcore/appcore.go.
--   Wire: pkg/protocol/protocol.go, pkg/hproto/hproto.go, pkg/wgkey/wgkey.go, `wgtun.Config`.
--   Client: pkg/client/client.go; `do` is `call`.
--   Helper/State: `session`, `Server`, `stopLocked`, `setLeaseLocked` of pkg/helper/helper.go. Sessions
--     are on a heap, since the server and the loops share them by pointer; the tunnels that are up and
--     the requests sent are ghost fields of the state.
--   Helper/Enroll: `allowed`, `enroll`, `status`; what runs before the lock is `prepare`, what runs under
--     it `enroll_locked`.
--   Helper/Renew: `renew` and `drop`. Helper/Requests: `handle` and the actions, and `Shutdown`.
--   Helper/Steps: the goroutines interleaved, at the grain of the critical sections; Helper/Handlers
--     shows that the handlers are made of these steps.
--   Helper/OneTunnel, Configured, Numbered: invariants of the interleavings. Helper/Allowed, Connects,
--     Loop, GiveBack, Stops, Replies, Retry: single operations. Helper/Writes: what they share.
--   Helper/Contract: the helper as its users see it, and what each cause may do to that.
--   Helper/RenewLoop, with Kept and Wakes: `renewLoop`, its timer and its `wake` channel, beside the other
--     goroutines.
--   RouteWatch, with Transport and Pushes: pkg/routeclient/routeclient.go, and `watchRoutes` of
--     pkg/helper/helper.go over it and `UpdateRoutes`.
--   Socket/Windows, with Owners, Opened and Secured: pkg/helper/listen_windows.go. Socket/Unix, with
--     Moments: `Listen` of pkg/helper/listen_unix.go.
--   Wgtun: pkg/wgtun. Wgtun/Addresses: what it uses of `net/netip`. Wgtun/Plan: pkg/wgtun/netplan.go, with
--     Plan/Routed, Sorting, Resolvers for its loops. Wgtun/Routes: `UpdateRoutes` of pkg/wgtun/wgtun.go over
--     a `Platform`, with what a platform owes in Routes/Entries, where its deletions work (`Lawful`) and where
--     they may fail (`Careful`), since the source discards their errors; Routes/Update, Installed, Stale.
--     Wgtun/Darwin, Linux, Windows: pkg/wgtun/wgtun_darwin.go, wgtun_other.go and wgtun_windows.go, each with
--     its `Laws`; Wgtun/Commands: what the first two share; Windows/Families: `configureNetwork` there.
--     Wgtun/Up, Up/Resources: `Up` and `Close` of pkg/wgtun/wgtun.go, and what they leave open.
--   Access, Access/Windows, Access/Unix: who may write the helper's files, pkg/helper/acl.go and the
--     checks of pkg/helper/listen_unix.go, and `LoadConfig` of pkg/helper/helper.go.
--
-- The app.
--   HelperClient: pkg/helperclient/helperclient.go.
--   Auth, Auth/GoAuthn: `New` of pkg/auth/auth.go, and the key registration of pkg/auth/goauthn.go.
--   Auth/GitHub, GitHub/Polling: pkg/auth/github.go. Auth/Oidc, Oidc/Callback: pkg/oidc/oidc.go and
--     pkg/auth/oidc_provider.go. Auth/Device: the sign-in of pkg/auth/goauthn.go. Auth/Browser:
--     pkg/browser/browser.go.
--   Store, Store/Atomic: pkg/tokenstore/tokenstore.go.
--   App/Config: pkg/appcore/config.go and `authConfig` of pkg/appcore/appcore.go.
--   App/Core, App/Core/Actions, App/Core/Renewal: `Core` of pkg/appcore/appcore.go, with its sign-in, its
--     operations, `Status` and the two halves of a round of `keepRenewing`. The contexts of the loops,
--     and which loops run, are in the state.
--   App/Core/Steps, OneLoop, Operations: the app's goroutines interleaved, their invariant, and the
--     operations as sequences of the steps. App/Core/Choice, Ends, Logs: single operations.
--   App/Core/SignIn, SignIn/Session: `Core.Login` over the providers. App/Core/Settings: `SaveConfig` and
--     `UpdateConfig`.
--
-- The two together.
--   System: the app's socket answered by the helper's `handle`. System/Connecting, Choosing, Ending: a
--     connect, a connect that wants a tenant chosen, and a disconnect, from the app to the tunnel.
--
-- Examples: the theorems at concrete inputs.
--
-- Bounds and fuel. A `time.Time` is the natural number of nanoseconds since Go's zero time, a
-- `time.Duration` an int64 of them, whose doubling wraps and whose quotient rounds towards zero. The
-- helper's generation is a uint64 that wraps; the theorems that need it not to say `Fits`, which holds
-- for 2^63 sessions. A number is printed in decimal or hexadecimal with itself plus one as fuel, since
-- each digit divides it. Durations of timeouts are left out: that a request timed out is one of the
-- errors that it may come back with. The GitHub sign-in polls for so many rounds as its fuel; one more
-- than the seconds that the code lasts is enough. An address is a number of 32 or 128 bits.
--
-- What is a parameter. The HTTP transport and the JSON codecs (`Client.Web`), the WireGuard keys
-- (`Wire.Keys`), the clock, how a tunnel comes up (`Helper.Enroll.Env`), the file system
-- (`Store.Os`, `Access.Unix.FileInfo`), the identity providers (`Auth.GoAuthn.Idp`, `Auth.GitHub.Github`,
-- `Auth.Oidc.Idp`, `Auth.Device.DeviceIdp`), the system that sets up the network (`Wgtun.Commands.System`,
-- `Wgtun.Windows.System`, `Wgtun.Up.System`), gRPC (`RouteWatch.Grpc`), the calls that open the helper's
-- socket (`Socket.Windows.Win32`, `Socket.Unix.Unix`) and the app's end of it (`HelperClient.Socket`, and
-- `System.Link` for what travels on it) answer what they like; the theorems hold for every answer,
-- or name what they rely on: `Lawful` and `Careful` of a platform's routes, `System.IsLossless` of the
-- app's socket, and `Speaks`, that an error of bringing a tunnel up has a text.
--
-- What is not modelled. `Serve`, which starts a handler for each connection, and the hooks `UseTunnels`
-- and `UseRouteWatch` of pkg/helper/helper.go; `Wait` and `Name` of a tunnel; `ConfigPath`; logging, beside
-- the log that the app shows. The generated gRPC code (pkg/routespb) and internal/buildinfo.
pub mod Common
pub mod Errors
pub mod Lease
pub mod Wire
pub mod Client
pub mod Wgtun
pub mod Socket
pub mod RouteWatch
pub mod System
pub mod Helper
pub mod Access
pub mod Auth
pub mod App
pub mod Store
pub mod HelperClient
pub mod Examples
