-- ===== src/Helper/Replies.antt =====
-- What the helper's answers say of its state (`status` and `handle`, pkg/helper/helper.go).
use claimward_vpn_client.Common.{
  ◌≡◌, refl, ◌↔◌, [], ◌∷◌, Option, true, false, arith, str_eq, Bool-cases, inl, inr,
}
use claimward_vpn_client.Errors.{Result, ok, err}
use claimward_vpn_client.Wire.{ConnectSpec, Request}
use claimward_vpn_client.Helper.State.{Server, State, Tunnel}
use claimward_vpn_client.Helper.Enroll.{Env, status}
use claimward_vpn_client.Helper.Requests.{
  tenants, dispatch, handle, action_connect, action_tenants, action_renew, action_down,
  action_status,
}
use claimward_vpn_client.Helper.OneTunnel.{OneTunnel, AgreesOn}
use claimward_vpn_client.Helper.OneTunnel.Steps.{tenants-AgreesOn}

-- The status of a helper with at most one tunnel says "connected" exactly when a tunnel is up, then
-- names that tunnel, and carries the last error.
pub status_lem :
    {s : State}
    → OneTunnel s
    → let r = status s in
      ((r.connected ≡ true) ↔ ((t : Tunnel) × (s.up ≡ t ∷ []) × (r.interface ≡ t.name)))
      × ((r.connected ≡ false) ↔ (s.up ≡ []))
      × (r.last_error ≡ s.last_err)
      × (r.succeeded ≡ true)
unfolding status
status_lem {s} v = elim v.stage [
  | inl idle ↦
      rw (idle.0, idle.1)
        ((λ e. absurd (cc), λ x. absurd (cc (x.1))), (λ e. refl, λ e. refl), refl, refl)
  | inr held ↦
      rw (held.2, held.3, held.6)
        (
          (λ e. (held.1.tun, refl, refl), λ x. refl),
          (λ e. absurd (cc), λ e. absurd (cc)),
          refl,
          refl,
        )
]

tenants_last_err :
    (srv : Server) (env : Env) (s : State) (spec : Option ConnectSpec)
    → (tenants srv env s spec).0.last_err ≡ s.last_err
unfolding tenants
tenants_last_err srv env s spec = ground arith

-- Nothing but a connect, a renew or a down moves the helper: an answer to any other request, known or
-- not, decoded or not, leaves the sessions, the tunnel and the last error as they were.
pub handle_frame :
    (srv : Server) (env : Env) (s : State) (req : Result Request)
    → ((r : Request)
        → req ≡ ok r
        → (str_eq r.action action_connect ≡ false)
          × (str_eq r.action action_renew ≡ false)
          × (str_eq r.action action_down ≡ false))
    → let t = (handle srv env s req).0 in AgreesOn s t × (t.last_err ≡ s.last_err)
unfolding handle dispatch
handle_frame srv env s (err e) h = ((refl, refl, refl, refl, refl), refl)
handle_frame srv env s (ok req) h =
    let (nc, nr, nd) = h req refl in
    elim (Bool-cases (str_eq req.action action_tenants)) [
      | inl t ↦
          rw (nc, t)
            (tenants-AgreesOn srv env s req.connect, tenants_last_err srv env s req.connect)
      | inr nt ↦ elim (Bool-cases (str_eq req.action action_status)) [
        | inl st ↦ rw (nc, nt, nr, nd, st) ((refl, refl, refl, refl, refl), refl)
        | inr ns ↦ rw (nc, nt, nr, nd, ns) ((refl, refl, refl, refl, refl), refl)
      ]
    ]
