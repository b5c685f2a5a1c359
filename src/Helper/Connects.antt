-- ===== src/Helper/Connects.antt =====
-- What a connect asks for and what it may get (`connect` of pkg/helper/helper.go).
use mathlib.Core.List.{Mem}
use claimward_vpn_client.Common.{
  ◌≡◌, refl, sym, ◌∙◌, String, [], ◌∷◌, some, true, arith, ◌+++◌, ◌≢◌, Bool-cases, inl, inr,
  trim_right, is_blank, quote, Option-cases,
}
use claimward_vpn_client.Errors.{Result, ok, err, error_text}
use claimward_vpn_client.Wire.{ConnectSpec}
use claimward_vpn_client.Helper.State.{
  Server, Session, State, Tunnel, live, stop_locked, set_lease, next_gen,
}
use claimward_vpn_client.Helper.Enroll.{
  Env, Prepared, Target, allowed, target, asked, ask, prepare, enroll_locked, enroll, committed,
  replied, failure, install, give_back_old, find_server, new_session,
}
use claimward_vpn_client.Helper.Requests.{connect}
use claimward_vpn_client.Helper.Allowed.{find_server_sound}
use claimward_vpn_client.Helper.OneTunnel.{OneTunnel, stop-IsIdle, restate}
use claimward_vpn_client.Helper.OneTunnel.Steps.{give_back_old-AgreesOn, prepare-AgreesOn}
use claimward_vpn_client.Helper.Configured.Steps.{asked_target, prepared_server}
use claimward_vpn_client.Client.{tunnel_config}

-- A request that names no configured server is refused with nothing sent to anybody and nothing
-- changed, whatever else it holds.
pub connect_elsewhere :
    (srv : Server) (env : Env) (s : State) (spec : ConnectSpec)
    → ((u : String) → Mem u srv.config.servers → trim_right u ≢ trim_right spec.server_url)
    → (why : String) × (connect srv env s (some spec) ≡ (s, failure why))
unfolding connect enroll prepare target allowed error_text
connect_elsewhere srv env s spec other = elim (Bool-cases (is_blank spec.bearer)) [
  | inl blank ↦ ("missing connect spec", rw blank)
  | inr given ↦
      let want = trim_right spec.server_url in
      elim (Option-cases (find_server want srv.config.servers)) [
        | inl e ↦ (
          "server " +++ quote spec.server_url +++ " is not one this helper is configured for",
          rw (given, e),
        )
        | inr (u, e) ↦
            let (m, same) = find_server_sound want srv.config.servers u e in absurd (other u m same)
      ]
]

-- What a successful connect was made of: an enrollment that a server answered, and the tunnel that
-- came of the configuration in that answer.
pub record Made (env : Env) (spec : ConnectSpec) (t : State) (q : Prepared) (tun : Tunnel)
    : Type 0 where
  pub asked_for : q.target.spec ≡ spec
  pub brought_up : env.bring_up q.config ≡ ok tun
  pub one_up : t.up ≡ tun ∷ []
  pub live_now :
      (sess : Session) × (live t ≡ some sess)
      × (sess.server ≡ q.target.server)
      × (sess.spec ≡ spec)
      × (sess.lease ≡ q.resp.lease_expires_at)
      × (sess.assigned ≡ q.resp.assigned_ip)
      × (sess.tun ≡ tun)
  pub no_error : t.last_err ≡ ""
  pub tunnel_answered : tunnel_config env.keys q.resp q.target.pair.secret ≡ ok q.config

target_spec :
    (srv : Server) (env : Env) (spec : ConnectSpec) (t : Target)
    → target srv env (some spec) ≡ ok t
    → t.spec ≡ spec
unfolding target
target_spec srv env spec t h = ground arith

asked_config :
    (srv : Server) (env : Env) (s : State) (r : Result Target) (q : Prepared)
    → (asked srv env s r).1 ≡ ok q
    → tunnel_config env.keys q.resp q.target.pair.secret ≡ ok q.config
unfolding ask
asked_config srv env s (err e) q h = cc
asked_config srv env s (ok t) q h = ground arith

module _ (srv : Server) (env : Env) (spec : ConnectSpec) where
  installed :
      (s : State) (q : Prepared) (r : Result Tunnel)
      → env.bring_up q.config ≡ r
      → s.up ≡ []
      → q.target.spec ≡ spec
      → tunnel_config env.keys q.resp q.target.pair.secret ≡ ok q.config
      → (replied (install srv env.now s q r)).1.succeeded ≡ true
      → (tun : Tunnel) × Made env spec (replied (install srv env.now s q r)).0 q tun
  unfolding set_lease
  installed s q (err e) b u sp c h = absurd (cc)
  installed s q (ok tun) b u sp c h = (
    tun,
    record {
      asked_for = sp;
      brought_up = b;
      one_up = rw u;
      live_now = (
        new_session srv env.now (next_gen s.gen) q tun,
        ground arith,
        refl,
        sp,
        refl,
        refl,
        refl,
      );
      no_error = refl;
      tunnel_answered = c;
    },
  )

  committed-Made :
      (s : State) (x : State × Result Prepared)
      → OneTunnel x.0
      → ((q : Prepared)
          → x.1 ≡ ok q
          → (q.target.spec ≡ spec)
            × (tunnel_config env.keys q.resp q.target.pair.secret ≡ ok q.config))
      → (committed srv env 0 x).1.succeeded ≡ true
      → (q : Prepared) × (tun : Tunnel) × (x.1 ≡ ok q)
        × Made env spec (committed srv env 0 x).0 q tun
  unfolding enroll_locked
  committed-Made s (u, err e) v k h = absurd (cc)
  committed-Made s (u, ok q) v k h =
      let agree = give_back_old-AgreesOn (stop_locked u) q.target (live u) in
      let (sp, c) = k q refl in
      let (tun, made) =
        installed (give_back_old (stop_locked u) q.target (live u)) q (env.bring_up q.config) refl
          (sym agree.4 ∙ (stop-IsIdle v).1) sp c h in
      (q, tun, refl, made)

  -- In a helper with at most one tunnel, a connect that succeeds has enrolled with a configured
  -- server as the request asked, and the only tunnel up is the one brought up from the configuration
  -- in that server's answer.
  pub connect-Made :
      (s : State)
      → OneTunnel s
      → (connect srv env s (some spec)).1.succeeded ≡ true
      → (q : Prepared) × (tun : Tunnel) × Mem q.target.server srv.config.servers
        × Made env spec (connect srv env s (some spec)).0 q tun
  unfolding connect enroll
  connect-Made s v h =
      let (q, tun, e, made) =
        committed-Made s (prepare srv env s (some spec))
          (restate (prepare-AgreesOn srv env s (some spec)) v)
          (λ q e. (
            target_spec srv env spec q.target (prepared_target q e),
            asked_config srv env s (target srv env (some spec)) q (unfold prepare in e),
          ))
          h in
      (q, tun, prepared_server srv env s (some spec) q e, made)
    where
      prepared_target :
          (q : Prepared)
          → (prepare srv env s (some spec)).1 ≡ ok q
          → target srv env (some spec) ≡ ok q.target
      prepared_target q e =
          asked_target srv env s (target srv env (some spec)) q (unfold prepare in e)
