-- ===== src/Examples/Whole.antt =====
-- The app and the helper together, and the helper's renewal loop among its other goroutines.
use claimward_vpn_client.Common.{
  ◌<◌, ◌≡◌, refl, [], ◌∷◌, some, true, false, trim_right, arith, str_eq, ◌+◌, if◌then◌else◌,
}
use claimward_vpn_client.Errors.{plain, ok, err, ServerError}
use claimward_vpn_client.Lease.{minute}
use claimward_vpn_client.Wire.{TenantInfo, Pair, parse_private, parse_public}
use claimward_vpn_client.Client
use claimward_vpn_client.Client.{Web, tunnel_config}
use claimward_vpn_client.HelperClient
use claimward_vpn_client.Store.{load, save}
use claimward_vpn_client.Auth.{new_provider}
use claimward_vpn_client.Lease.{renew_delay}
use claimward_vpn_client.Helper.State.{Session, State, init, stop_locked, set_lease}
use claimward_vpn_client.Helper.Enroll.{
  Env, allowed, find_server, target, ask, prepare, enroll, enroll_locked, status,
}
use claimward_vpn_client.Helper.Renew.{lease_renewed, renewal_failed, modify}
use claimward_vpn_client.Helper.Requests
use claimward_vpn_client.Helper.Requests.{handle, dispatch, tenant_of, down}
use claimward_vpn_client.Helper.Steps.{renews, downs}
use claimward_vpn_client.Helper.OneTunnel.{AgreesOn, init-OneTunnel}
use claimward_vpn_client.Helper.Contract.{on, stopping, Moves, view, tunnels, Step-Moves}
use claimward_vpn_client.Helper.RenewLoop.{
  reading, sleeping, timer, heard, Turn, Turns, here, next, others, reads, wakes,
}
use claimward_vpn_client.Helper.RenewLoop.Wakes.{IsTold, Turns-Told, fails-unheard}
use claimward_vpn_client.App.Config.{validate}
use claimward_vpn_client.App.Core.{World, Shown, session, bearer_for, logf}
use claimward_vpn_client.App.Core.Actions.{connect, err_tenant_required, spec_of}
use claimward_vpn_client.System.{Link, IsLossless, with_helper}
use claimward_vpn_client.System.Connecting.{Connected, connect-Connected}
use claimward_vpn_client.System.Choosing.{Offers, Refuses, connect-Offers}
use claimward_vpn_client.Examples.World.{srv, web, env, sess, running, running-OneTunnel, wg0}
use claimward_vpn_client.Examples.Service.{world, core, signed_in}

abbrev link : Link
link = record { carry = λ req. ok req; back = λ r. ok r }

link-IsLossless : IsLossless link
link-IsLossless = record { carried = λ req. refl; brought = λ r. refl }

connects : (connect (with_helper link srv env init world) core).1 ≡ ok tt
unfolding connect validate session load save new_provider bearer_for parse_private logf
    HelperClient.connect HelperClient.call handle dispatch Requests.connect enroll prepare target
    allowed find_server ask enroll_locked stop_locked set_lease status Client.enroll Client.call
    Client.base_url tunnel_config parse_public renew_delay trim_right
connects = refl

connect-Connected_example :
    Connected link link-IsLossless srv env init world core
      (connect (with_helper link srv env init world) core).0
connect-Connected_example =
    connect-Connected link link-IsLossless srv env init world core init-OneTunnel (λ cfg e h. cc)
      connects

-- A server that wants a tenant chosen.
abbrev acme : TenantInfo
acme = record { id = "acme"; name = "Acme" }

abbrev choosy_web : Web
choosy_web = record web {
  send = λ req. ok (record { status = if str_eq req.method "POST" then 403 else 200; body = "" });
  decode_tenants = λ body. ok (acme ∷ []);
  decode_error = λ body. ok (record { error = "tenant_required"; message = "choose" });
}

abbrev choosy : Env
choosy = record env { web = choosy_web }

abbrev w : World
w = with_helper link srv choosy init world

abbrev shown : Shown
shown = record { bearer = "token"; changed = false; session = signed_in }

abbrev pair : Pair
pair = record { secret = 7 ∷ []; public = 7 ∷ [] }

abbrev refusal : ServerError
refusal = record { status = 403; code = "tenant_required"; message = "choose" }

offers :
    Offers link link-IsLossless srv choosy init world core shown shown "https://vpn.example/"
      (acme ∷ [])
unfolding validate session load save new_provider bearer_for parse_private allowed find_server
    trim_right Client.tenants Client.call Client.base_url
offers = (refl, refl, refl, refl, refl)

refuses : Refuses srv choosy init (spec_of w core shown) "https://vpn.example/" pair refusal
unfolding allowed find_server trim_right parse_private Client.enroll Client.call Client.base_url
refuses = (refl, refl, refl)

connect-Offers_example :
    let (y, r) = connect w core in
    (r ≡ err err_tenant_required)
    × (y.tenant_required ≡ true)
    × (y.tenants ≡ record { id = "acme"; name = "Acme" } ∷ [])
    × AgreesOn init (Requests.connect srv choosy init (some (spec_of w core shown))).0
connect-Offers_example =
    connect-Offers link link-IsLossless srv choosy init world core shown shown
      "https://vpn.example/" (acme ∷ []) offers pair refusal refuses refl

-- The loop reads, takes what waits in `wake`, reads again, and a request renews the lease.
abbrev told : State
told = modify running 0 heard

abbrev renewed : State
renewed = lease_renewed srv 3000000000 told 0 90000000000000

turns :
    Turns srv 0
      (record { state = running; place = reading })
      (record { state = renewed; place = sleeping 2000000000 (heard sess) })
turns =
    next
      (next
        (next (next here (reads 1000000000 running sess refl))
          (wakes running 1000000000 sess sess refl refl))
        (reads 2000000000 told (heard sess) refl))
      (others told renewed (sleeping 2000000000 (heard sess))
        (renews 3000000000 told 0 90000000000000))

Turns-Told_example : IsTold 0 (record { state = renewed; place = sleeping 2000000000 (heard sess) })
Turns-Told_example = Turns-Told sess running-OneTunnel refl refl turns

before_timer : 3000000000 + minute < timer 2000000000 (heard sess)
before_timer = ground arith

fails-unheard_example :
    let t = renewal_failed srv 3000000000 told 0 (plain "503") in
    Turn srv 0
      (record { state = told; place = sleeping 2000000000 (heard sess) })
      (record { state = t; place = sleeping 2000000000 (heard sess) })
    × ((y : Session) × (t.heap 0 ≡ some y)
        × (y.wake ≡ false)
        × (y.renew_by < timer 2000000000 (heard sess)))
fails-unheard_example =
    fails-unheard srv 3000000000 told 0 (plain "503") 2000000000 (heard sess) (heard sess) minute
      refl refl refl before_timer

Step-Moves_example :
    Moves stopping (on wg0 "https://vpn.example/") (view (down running).0)
    × ((down running).0.up ≡ tunnels (view (down running).0))
Step-Moves_example = Step-Moves {srv = srv} (downs running) running-OneTunnel
