-- ===== src/System/Connecting.antt =====
-- A connect from the app to the tunnel: `Core.Connect` of pkg/appcore/appcore.go down to `enroll` of
-- pkg/helper/helper.go.
use mathlib.Core.List.{Mem}
use claimward_vpn_client.Common.{
  ◌≡◌, refl, sym, ◌∙◌, ap, ◌⊎◌, inl, inr, ◌+++◌, String, Option, some, true, false, Bool-cases,
  Option-cases, is_blank, contains, arith,
}
use claimward_vpn_client.Errors.{Error, Result, ok, err, error_text}
use claimward_vpn_client.Helper.Loop.Errors.{Clean, blank-Apart, prepare-Clean}
use claimward_vpn_client.Wire.{TunnelConfig, ConnectSpec, Response}
use claimward_vpn_client.HelperClient
use claimward_vpn_client.HelperClient.{answered}
use claimward_vpn_client.Store.{Files}
use claimward_vpn_client.Helper.State.{Server, State, Tunnel, stop_locked, live}
use claimward_vpn_client.Helper.Enroll.{
  Env, Prepared, Outcome, connected, refused, prepare, enroll, enroll_locked, committed, replied,
  status, install, give_back_old,
}
use claimward_vpn_client.Helper.Requests.{handle, dispatch}
use claimward_vpn_client.Helper.Requests
use claimward_vpn_client.Helper.OneTunnel.{OneTunnel}
use claimward_vpn_client.Helper.Connects.{Made, connect-Made}
use claimward_vpn_client.App.Config.{validate}
use claimward_vpn_client.App.Core.{World, Core, Shown, session, logf, start_loop, stop_loop}
use claimward_vpn_client.App.Core.Actions.{
  connect, connect_valid, connect_shown, connect_answered, spec_of, connecting, now_connected,
}
use claimward_vpn_client.System.{Link, IsLossless, helper_at, with_helper}

-- An answer that the client passes on reports success, or no error.
answered_ok :
    (q r : Response)
    → answered q ≡ ok r
    → (q ≡ r) × ((q.succeeded ≡ true) ⊎ ((q.succeeded ≡ false) × (is_blank q.error ≡ true)))
answered_ok q r h = elim (Bool-cases q.succeeded) [
  | inl good ↦ ground arith
  | inr bad ↦ elim (Bool-cases (is_blank q.error)) [
    | inl blank ↦ ground arith
    | inr said ↦ absurd (ground arith)
  ]
]

-- A connect that succeeds answers with the status of the state that it leaves.
replied_status :
    (x : State × Outcome) → (replied x).1.succeeded ≡ true → (replied x).1 ≡ status (replied x).0
replied_status (t, connected) h = refl
replied_status (t, refused why) h = absurd (cc)

committed_status :
    (srv : Server) (env : Env) (x : State × Result Prepared)
    → (committed srv env 0 x).1.succeeded ≡ true
    → (committed srv env 0 x).1 ≡ status (committed srv env 0 x).0
committed_status srv env (t, err e) h = absurd (cc)
committed_status srv env (t, ok q) h = replied_status (enroll_locked srv env t 0 q) h

connect_status :
    (srv : Server) (env : Env) (s : State) (spec : Option ConnectSpec)
    → (Requests.connect srv env s spec).1.succeeded ≡ true
    → (Requests.connect srv env s spec).1 ≡ status (Requests.connect srv env s spec).0
unfolding Requests.connect enroll
connect_status srv env s spec h = committed_status srv env (prepare srv env s spec) h

-- An error of bringing a tunnel up has a text.
abbrev pub Speaks : Env → Type 0
Speaks env =
    (cfg : TunnelConfig) (e : Error) → env.bring_up cfg ≡ err e → is_blank (error_text e) ≡ false

-- Then no answer to a connect has neither success nor an error.
abbrev Spoken : Response → Type 0
Spoken r = (r.succeeded ≡ true) ⊎ (is_blank r.error ≡ false)

installed-Spoken :
    (srv : Server) (env : Env) (s : State) (q : Prepared) (r : Result Tunnel)
    → Speaks env
    → env.bring_up q.config ≡ r
    → Spoken (replied (install srv env.now s q r)).1
unfolding status
installed-Spoken srv env s q (err e) speaks h = inr (speaks q.config e h)
installed-Spoken srv env s q (ok tun) speaks h = inl (ground arith)

committed-Spoken :
    (srv : Server) (env : Env) (x : State × Result Prepared)
    → Speaks env
    → Clean "" x.1
    → Spoken (committed srv env 0 x).1
unfolding enroll_locked
committed-Spoken srv env (t, err e) speaks clean = inr clean
committed-Spoken srv env (t, ok q) speaks clean =
    installed-Spoken srv env (give_back_old (stop_locked t) q.target (live t)) q
      (env.bring_up q.config) speaks refl

connect-Spoken :
    (srv : Server) (env : Env) (s : State) (spec : Option ConnectSpec)
    → Speaks env
    → Spoken (Requests.connect srv env s spec).1
unfolding Requests.connect enroll
connect-Spoken srv env s spec speaks =
    committed-Spoken srv env (prepare srv env s spec) speaks
      (prepare-Clean "" blank-Apart srv env s spec)

-- The core after a connect that its client took for one.
now_connected_lem :
    (w : World) (c : Core) (r : Response) (line : String)
    → let d = logf w (now_connected c r) line in
      (d.connected ≡ true) × (d.iface ≡ r.interface) × (d.assigned ≡ r.assigned_ip)
unfolding logf now_connected start_loop stop_loop
now_connected_lem w c r line = elim (Option-cases c.stop_renew) [
  | inl e ↦ rw e (refl, refl, refl)
  | inr (i, e) ↦ rw e (refl, refl, refl)
]

-- An answer that reports success, or neither success nor an error.
abbrev Passes : Response → Type 0
Passes r = (r.succeeded ≡ true) ⊎ ((r.succeeded ≡ false) × (is_blank r.error ≡ true))

-- What the core shows is what the answer says.
abbrev Shows : Core → Response → Type 0
Shows d r = (d.connected ≡ true) × (d.iface ≡ r.interface) × (d.assigned ≡ r.assigned_ip)

connect_answered-Shows :
    (w : World) (c : Core) (q : Response) (a : Result Response)
    → answered q ≡ a
    → (connect_answered w c a).1 ≡ ok tt
    → Shows (connect_answered w c a).0 q × Passes q
connect_answered-Shows w c q (err e) f h =
    elim (Bool-cases (contains (error_text e) "tenant_required")) [
      | inl wanted ↦ absurd (ground arith)
      | inr other ↦ absurd (ground arith)
    ]
connect_answered-Shows w c q (ok r) f h =
    let (same, fine) = answered_ok q r f in
    let line =
      "connected: interface=" +++ r.interface +++ " ip=" +++ r.assigned_ip +++ " tenant="
      +++ r.tenant in
    let (a, b, d) = now_connected_lem w c r line in
    (
      (
        a,
        b ∙ ap (λ (x : Response). x.interface) (sym same),
        d ∙ ap (λ (x : Response). x.assigned_ip) (sym same),
      ),
      fine,
    )

-- The status after a connect names its tunnel, its address and its tenant.
status-Made :
    (env : Env) (spec : ConnectSpec) (t : State) (q : Prepared) (tun : Tunnel)
    → Made env spec t q tun
    → ((status t).interface ≡ tun.name)
      × ((status t).assigned_ip ≡ q.resp.assigned_ip)
      × ((status t).tenant ≡ spec.tenant)
unfolding status
status-Made env spec t q tun made =
    let (sess, l, _, e, _, a, n) = made.live_now in
    rw l (ap (λ (x : Tunnel). x.name) n, a, ap (λ (x : ConnectSpec). x.tenant) e)

module _ (link : Link) (lossless : IsLossless link) (srv : Server) (env : Env) (s : State) where
  -- What the app's client makes of the helper's answer to a connect.
  pub client_connect :
      (path : String) (spec : ConnectSpec)
      → HelperClient.connect path (helper_at link srv env s) spec
        ≡ answered (Requests.connect srv env s (some spec)).1
  unfolding HelperClient.connect HelperClient.call handle dispatch
  client_connect path spec =
      rw
        (
          lossless.carried (record { action = "connect"; connect = some spec }),
          lossless.brought (Requests.connect srv env s (some spec)).1,
        )
        refl

  module _ (u : World) (c : Core) where
    abbrev w : World
    w = with_helper link srv env s u

    abbrev asks : Shown → State × Response
    asks b = Requests.connect srv env s (some (spec_of w c b))

    -- The helper made a tunnel with the session that the app keeps, and the core shows its name and
    -- address.
    abbrev pub Connected : Core → Type 0
    Connected d =
        (b : Shown) × (q : Prepared) × (tun : Tunnel) × ((session w c.cfg c.files).1 ≡ ok b)
        × Mem q.target.server srv.config.servers
        × Made env (spec_of w c b) (asks b).0 q tun
        × (d.connected ≡ true)
        × (d.iface ≡ tun.name)
        × (d.assigned ≡ q.resp.assigned_ip)

    succeeds : (b : Shown) → Speaks env → Passes (asks b).1 → (asks b).1.succeeded ≡ true
    succeeds b speaks (inl good) = good
    succeeds b speaks (inr silent) = elim (connect-Spoken srv env s (some (spec_of w c b)) speaks) [
      | inl good ↦ good
      | inr said ↦ let clash : true ≡ false = sym silent.1 ∙ said in absurd (cc)
    ]

    shown-Connected :
        OneTunnel s
        → Speaks env
        → (x : Files × Result Shown) → (session w c.cfg c.files).1 ≡ x.1
        → (connect_shown w c x).1 ≡ ok tt
        → Connected (connect_shown w c x).0
    shown-Connected v speaks (f, err e) g h = absurd (cc)
    shown-Connected v speaks (f, ok b) g h =
        let (shows, passes) =
          connect_answered-Shows w (connecting w (record c { files = f }) b) (asks b).1
            (HelperClient.connect c.helper_path (helper_at link srv env s) (spec_of w c b))
            (sym (client_connect c.helper_path (spec_of w c b))) h in
        let good = succeeds b speaks passes in
        let (q, tun, m, made) = connect-Made srv env (spec_of w c b) s v good in
        let said = connect_status srv env s (some (spec_of w c b)) good in
        let (n, a, _) = status-Made env (spec_of w c b) (asks b).0 q tun made in
        (
          b,
          q,
          tun,
          g,
          m,
          made,
          shows.0,
          shows.1 ∙ ap (λ (x : Response). x.interface) said ∙ n,
          shows.2 ∙ ap (λ (x : Response). x.assigned_ip) said ∙ a,
        )

    valid-Connected :
        OneTunnel s
        → Speaks env
        → (r : Result (Unit {0})) → (connect_valid w c r).1 ≡ ok tt
        → Connected (connect_valid w c r).0
    valid-Connected v speaks (err e) h = absurd (cc)
    valid-Connected v speaks (ok x) h = shown-Connected v speaks (session w c.cfg c.files) refl h

    -- When the app's connect succeeds, over a link that loses nothing to a helper with at most one
    -- tunnel, whose errors of bringing one up have a text: the helper has enrolled with a configured
    -- server, with the bearer, key and tenant of the session that the app keeps, and has one tunnel up,
    -- made of that server's answer; and the core says that there is a connection, and shows that
    -- tunnel's name and address.
    pub connect-Connected :
        OneTunnel s → Speaks env → (connect w c).1 ≡ ok tt → Connected (connect w c).0
    unfolding connect
    connect-Connected v speaks h = valid-Connected v speaks (validate c.cfg) h
