-- ===== src/RouteWatch/Pushes.antt =====
-- The tunnel's routes while pushes come in: `watchRoutes` of pkg/helper/helper.go over `Watch` of
-- pkg/routeclient/routeclient.go and `UpdateRoutes` of pkg/wgtun/wgtun.go.
use claimward_vpn_client.Common.{
  ◌≡◌, refl, ◌+++◌, String, List, [], ◌∷◌, Option, none, false, Bool-cases, In, inl, inr,
  if◌then◌else◌,
}
use claimward_vpn_client.Errors.{Result, ok, err}
use claimward_vpn_client.Wire.{Keys}
use claimward_vpn_client.Wgtun.Addresses.{Prefix}
use claimward_vpn_client.Wgtun.Routes.{Tunnel, Device, update_routes}
use claimward_vpn_client.Wgtun.Routes.Entries.{Careful}
use claimward_vpn_client.Wgtun.Routes.Update
use claimward_vpn_client.Wgtun.Routes.Installed.{Installed, Apart, update_routes-Installed}
use claimward_vpn_client.Helper.State.{Session}
use claimward_vpn_client.RouteWatch.{
  Update, Credentials, Sent, Grpc, transport, receive, watch, applied, watch_routes,
}

-- The entries of the last update before the stream broke that came while the tunnel was not going
-- down, or the old ones.
abbrev pub latest : List String → List (Result Update) → List String
latest old [] = old
latest old (err e ∷ rest) = old
latest old (ok u ∷ rest) = latest (if u.cancelled then old else u.allowed_ips) rest

abbrev pub Within : List String → List String → Type 0
Within pool ips = (a : String) → In a ips → In a pool

-- An update that is applied reports no error and has entries of the pool.
abbrev Fine : List String → Device → Tunnel → Update → Type 0
Fine pool d t u =
    u.cancelled ≡ false
    → Within pool u.allowed_ips × ((update_routes d t u.allowed_ips).error ≡ none)

-- So does every update that is applied before the stream breaks.
abbrev pub AllFine : List String → Device → Tunnel → List (Result Update) → Type 0
AllFine pool d t [] = Unit
AllFine pool d t (err e ∷ rest) = Unit
AllFine pool d t (ok u ∷ rest) = Fine pool d t u × AllFine pool d (applied d t u) rest

module _ (dst : String → Option Prefix) (d : Device) (law : Careful d.platform dst)
    (keys : Update.Keys d) (pool : List String) (apart : Apart dst pool pool) where
  -- The interface has the routes of the configuration's entries, and those are such and of the pool.
  abbrev Has : List String → Tunnel → Type 0
  Has ips t = Installed d.platform dst t × Within pool ips × (t.cfg.allowed_ips ≡ ips)

  applied-Has :
      (t : Tunnel) (ips : List String) (u : Update)
      → Has ips t
      → Fine pool d t u
      → Has (if u.cancelled then ips else u.allowed_ips) (applied d t u)
  applied-Has t ips u (i, w, e) f = elim (Bool-cases u.cancelled) [
    | inl down ↦ rw down (i, w, e)
    | inr live ↦
        let (v, h) = f live in
        let near : Apart dst t.cfg.allowed_ips u.allowed_ips =
          rw e (λ a b r m n. apart a b r (w a m) (v b n)) in
        let (j, k) = update_routes-Installed dst d t u.allowed_ips law keys near i h in
        rw live (j, v, k)
  ]

  receive-Has :
      (g : Grpc) (ms : List Sent) (t : Tunnel) (ips : List String) (stream : List (Result Update))
      → Has ips t
      → AllFine pool d t stream
      → Has (latest ips stream) (receive g (applied d) ms t stream).state
  unfolding receive
  receive-Has g ms t ips [] h f = h
  receive-Has g ms t ips (err e ∷ rest) h f = h
  receive-Has g ms t ips (ok u ∷ rest) h (f, fs) =
      receive-Has g ms (applied d t u) (if u.cancelled then ips else u.allowed_ips) rest
        (applied-Has t ips u h f) fs

-- On a platform that adds routes as it owes and whose deletions add none and leave those that their
-- entries do not name, where no two different entries of a pool give one route: if the interface has
-- each route of the configuration's entries, all of the pool, and any other only where some deletion
-- of it fails, then so it has after a watch whose stream opens, and the entries are then those of the
-- last update that came, before the stream broke, while the tunnel was not going down; provided that
-- the updates till then have entries of the pool and are applied without an error.
pub watch_routes-Installed :
    (dst : String → Option Prefix) (d : Device)
    → Careful d.platform dst
    → Update.Keys d
    → (pool : List String) → Apart dst pool pool
    → (g : Grpc) (k : Keys) (sess : Session) (endpoint : String) (c : Credentials)
    → transport g endpoint ≡ ok c
    → g.new_client endpoint c ≡ ok tt
    → g.open_stream (record {
      endpoint = endpoint;
      credentials = c;
      authorization = "Bearer " +++ sess.spec.bearer;
      public_key = k.key_text sess.pub_key;
    })
      ≡ ok tt
    → (t : Tunnel) (stream : List (Result Update)) → Installed d.platform dst t
    → Within pool t.cfg.allowed_ips
    → AllFine pool d t stream
    → let u = (watch_routes g k d sess endpoint t stream).state in
      Installed d.platform dst u × (u.cfg.allowed_ips ≡ latest t.cfg.allowed_ips stream)
unfolding watch_routes watch
watch_routes-Installed dst d law keys pool apart g k sess endpoint c to client opens t stream i w
      f =
    let (j, v, e) =
      receive-Has dst d law keys pool apart g
        (record {
          endpoint = endpoint;
          credentials = c;
          authorization = "Bearer " +++ sess.spec.bearer;
          public_key = k.key_text sess.pub_key;
        }
          ∷ [])
        t t.cfg.allowed_ips stream (i, w, refl) f in
    rw (to, client, opens) (j, e)
