-- ===== src/System/Choosing.antt =====
-- A connect that the server answers with "tenant_required": from pkg/client/client.go's `ServerError`
-- through pkg/helper/helper.go to `Core.Connect` of pkg/appcore/appcore.go.
use claimward_vpn_client.Common.{
  ◌≡◌, refl, sym, ◌∙◌, ap, inl, inr, ◌+++◌, decimal, String, List, map, some, true, false,
  Bool-cases, is_blank, is_prefix, contains, contains_here, contains_right, arith, eq_iff,
}
use claimward_vpn_client.Errors.{
  Error, plain, server_error, wrapped, ServerError, Result, ok, err, error_text,
}
use claimward_vpn_client.Wire.{TenantInfo, Tenant, Pair, parse_private, ConnectSpec}
use claimward_vpn_client.Client
use claimward_vpn_client.HelperClient
use claimward_vpn_client.HelperClient.{answered}
use claimward_vpn_client.Store.{Files}
use claimward_vpn_client.Helper.State.{Server, State}
use claimward_vpn_client.Helper.Enroll.{
  Env, allowed, target, ask, prepare, enroll, failure, success,
}
use claimward_vpn_client.Helper.Requests.{tenant_of, handle, dispatch}
use claimward_vpn_client.Helper.Requests
use claimward_vpn_client.Helper.OneTunnel.{AgreesOn}
use claimward_vpn_client.App.Config.{validate}
use claimward_vpn_client.App.Core.{World, Core, Shown, session, logf}
use claimward_vpn_client.App.Core.Actions
use claimward_vpn_client.App.Core.Actions.{
  connect, connect_valid, connect_shown, connect_answered, spec_of, connecting, tenant_wanted,
  err_tenant_required,
}
use claimward_vpn_client.System.{Link, IsLossless, helper_at, with_helper}
use claimward_vpn_client.System.Connecting.{client_connect}

-- The text of such an answer, as the helper passes it on.
refusal_text :
    (e : ServerError)
    → e.code ≡ "tenant_required"
    → contains (error_text (wrapped "enroll" (server_error e))) "tenant_required" ≡ true
unfolding error_text
refusal_text e h =
    let rest = ": " +++ e.message in
    let at = contains_here "tenant_required" rest in
    let named = "tenant_required" +++ rest in
    let coded = ": " +++ named in
    let numbered = decimal e.status +++ coded in
    let served = "server " +++ numbered in
    rw h (
      contains_right "enroll" (": " +++ served) "tenant_required" (
        contains_right ": " served "tenant_required" (
          contains_right "server " numbered "tenant_required" (
            contains_right (decimal e.status) coded "tenant_required"
              (contains_right ": " named "tenant_required" at)))))

-- A text with something in it is not blank.
contains-filled : (t : String) → contains t "tenant_required" ≡ true → is_blank t ≡ false
unfolding contains is_prefix
contains-filled t h = elim (Bool-cases (is_blank t)) [
  | inr filled ↦ filled
  | inl blank ↦
      let e = (eq_iff t "").0 blank in
      let clash : false ≡ true = ap (λ x. contains x "tenant_required") (sym e) ∙ h in absurd (cc)
]

answered_refusal :
    (why : String)
    → contains why "tenant_required" ≡ true
    → answered (failure why) ≡ err (plain ("helper: " +++ why))
answered_refusal why h = rw (contains-filled why h) refl

-- The helper refuses with the server's answer, and moves nothing.
module _ (srv : Server) (env : Env) (s : State) (spec : ConnectSpec) (server : String) (pair : Pair)
    (e : ServerError) where
  abbrev pub Refuses : Type 0
  Refuses =
      (allowed srv (some spec) ≡ ok server)
      × (parse_private env.keys spec.private_key ≡ ok pair)
      × (Client.enroll env.web env.keys server spec.bearer pair.public
            (record { name = spec.device_name; os = srv.os; platform = srv.platform }) spec.tenant
          ≡ err (server_error e))

  connect_refused :
      Refuses
      → ((Requests.connect srv env s (some spec)).1
          ≡ failure (error_text (wrapped "enroll" (server_error e))))
        × AgreesOn s (Requests.connect srv env s (some spec)).0
  unfolding Requests.connect enroll prepare target ask
  connect_refused (a, k, r) = rw (a, k, r) (refl, (refl, refl, refl, refl, refl))

-- What the app's client asks for a list of tenants with.
abbrev tenants_spec : String → String → ConnectSpec
tenants_spec server_url bearer = record {
  server_url = server_url;
  bearer = bearer;
  private_key = "";
  device_name = "";
  tenant = "";
}

module _ (link : Link) (lossless : IsLossless link) (srv : Server) (env : Env) (s : State) where
  -- What the app's client makes of the helper's list of tenants.
  client_tenants :
      (path server_url bearer server : String) (ts : List TenantInfo)
      → allowed srv (some (tenants_spec server_url bearer)) ≡ ok server
      → Client.tenants env.web server bearer ≡ ok ts
      → HelperClient.tenants path (helper_at link srv env s) server_url bearer
        ≡ ok (record success { tenants = map tenant_of ts })
  unfolding HelperClient.tenants HelperClient.call handle dispatch Requests.tenants
  client_tenants path server_url bearer server ts a l =
      rw
        (
          lossless.carried
              (record { action = "tenants"; connect = some (tenants_spec server_url bearer) }),
          a,
          l,
          lossless.brought (record success { tenants = map tenant_of ts }),
        )
        refl

  module _ (u : World) (c : Core) (b d : Shown) (server : String) (ts : List TenantInfo) where
    abbrev w : World
    w = with_helper link srv env s u

    -- What the server offers for the bearer that the app shows next.
    abbrev pub Offers : Type 0
    Offers =
        (validate c.cfg ≡ ok tt)
        × ((session w c.cfg c.files).1 ≡ ok b)
        × ((session w c.cfg (session w c.cfg c.files).0).1 ≡ ok d)
        × (allowed srv (some (tenants_spec c.cfg.server_url d.bearer)) ≡ ok server)
        × (Client.tenants env.web server d.bearer ≡ ok ts)

    -- The core, and what an operation of it answers, with the tenants on offer.
    abbrev Lists : Core × Result (List Tenant) → Type 0
    Lists x = (x.0.tenants ≡ map tenant_of ts) × (x.1 ≡ ok (map tenant_of ts))

    asked-Lists :
        Offers
        → (x : Core) (y : Files × Result Shown) → x.cfg ≡ c.cfg
        → y.1 ≡ ok d
        → Lists (Actions.tenants_asked w x y)
    asked-Lists o x (f, err e) same h = absurd (cc)
    asked-Lists (v, _, again, a, l) x (f, ok g) same h =
        let shown : g ≡ d = ground arith in
        let told = client_tenants x.helper_path c.cfg.server_url d.bearer server ts a l in
        rw (same, shown, told) (refl, refl)

    tenants-Lists :
        Offers
        → (x : Core) → x.cfg ≡ c.cfg
        → x.files ≡ (session w c.cfg c.files).0
        → Lists (Actions.tenants w x)
    unfolding Actions.tenants
    tenants-Lists o x same f =
        let valid = ap validate same ∙ o.0 in
        let again : (session w x.cfg x.files).1 ≡ ok d = rw (same, f) o.2 in
        rw valid (asked-Lists o x (session w x.cfg x.files) same again)

    listed_tenants :
        (x : Core × Result (List Tenant))
        → Lists x
        → (Actions.tenants_listed w x).tenants ≡ map tenant_of ts
    listed_tenants (x, ok us) h = h.0
    listed_tenants (x, err e) h = absurd (cc (h.1))

    wanted_lem :
        Offers
        → (x : Core) → x.cfg ≡ c.cfg
        → x.files ≡ (session w c.cfg c.files).0
        → ((tenant_wanted w x).tenant_required ≡ true)
          × ((tenant_wanted w x).tenants ≡ map tenant_of ts)
    unfolding tenant_wanted logf
    wanted_lem o x same f =
        let y = logf w x "connect: you belong to several tenants; choose one" in
        (refl, listed_tenants (Actions.tenants w y) (tenants-Lists o y same f))

    -- The answer to a connect that was so refused.
    answered_lem :
        Offers
        → (x : Core) (e : Error) → contains (error_text e) "tenant_required" ≡ true
        → x.cfg ≡ c.cfg
        → x.files ≡ (session w c.cfg c.files).0
        → let (y, r) = connect_answered w x (err e) in
          (r ≡ err err_tenant_required)
          × (y.tenant_required ≡ true)
          × (y.tenants ≡ map tenant_of ts)
    answered_lem o x e h same f = let (a, l) = wanted_lem o x same f in rw h (refl, a, l)

    shown_lem :
        Offers
        → (pair : Pair) (e : ServerError) → Refuses srv env s (spec_of w c b) server pair e
        → e.code ≡ "tenant_required"
        → (x : Files × Result Shown) → x ≡ session w c.cfg c.files
        → let (y, r) = connect_shown w c x in
          (r ≡ err err_tenant_required)
          × (y.tenant_required ≡ true)
          × (y.tenants ≡ map tenant_of ts)
    unfolding logf error_text
    shown_lem o pair e refuses code (f, err g) same =
        let clash : Path (Result Shown) (err g) (ok b) =
          ap (λ (y : Files × Result Shown). y.1) same ∙ o.1 in
        absurd (cc)
    shown_lem o pair e refuses code (f, ok g) same =
        let known : ok g ≡ ok b = ap (λ (y : Files × Result Shown). y.1) same ∙ o.1 in
        let shown : g ≡ b = ground arith in
        let why = error_text (wrapped "enroll" (server_error e)) in
        let text = refusal_text e code in
        let sent =
          client_connect link lossless srv env s c.helper_path (spec_of w c b)
          ∙ ap answered (connect_refused srv env s (spec_of w c b) server pair e refuses).0
          ∙ answered_refusal why text in
        rw (shown, sent)
          (answered_lem o (connecting w (record c { files = f }) b) (plain ("helper: " +++ why))
            (contains_right "helper: " why "tenant_required" text) refl
            (ap (λ (y : Files × Result Shown). y.0) same))

    -- When a server answers an enrollment with the code "tenant_required", and the app is signed
    -- in with a valid configuration, the helper is configured for the server and parses the device
    -- key, and the server lists the tenants of the bearer that it is shown next, then, over a link
    -- that loses nothing, the app's connect fails with `ErrTenantRequired`, the core wants a
    -- tenant chosen and offers those tenants, and the helper has moved nothing.
    pub connect-Offers :
        Offers
        → (pair : Pair) (e : ServerError) → Refuses srv env s (spec_of w c b) server pair e
        → e.code ≡ "tenant_required"
        → let (y, r) = connect w c in
          (r ≡ err err_tenant_required)
          × (y.tenant_required ≡ true)
          × (y.tenants ≡ map tenant_of ts)
          × AgreesOn s (Requests.connect srv env s (some (spec_of w c b))).0
    unfolding connect
    connect-Offers o pair e refuses code =
        let (r, a, l) = shown_lem o pair e refuses code (session w c.cfg c.files) refl in
        rw o.0 (r, a, l, (connect_refused srv env s (spec_of w c b) server pair e refuses).1)
