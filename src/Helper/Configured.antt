-- ===== src/Helper/Configured.antt =====
-- With which servers the helper's sessions are, and of which it makes the requests that show a bearer,
-- against its own configuration (pkg/helper/helper.go).
pub mod Steps
use mathlib.Core.List.{Mem}
use claimward_vpn_client.Common.{
  ℕ, ◌≡◌, refl, sym, ◌∙◌, subst, String, List, [], ◌∷◌, Option, none, some, Bool, Bool-cases, inl,
  inr, All, ◌==◌, arith, ap,
}
use claimward_vpn_client.Errors.{Result, ok, err}
use claimward_vpn_client.Lease.{Time}
use claimward_vpn_client.Wire.{ConnectSpec}
use claimward_vpn_client.Helper.State.{
  Server, Session, State, Tunnel, init, live, is_live, stop_locked, set_lease, send, Call,
}
use claimward_vpn_client.Helper.Enroll.{
  Env, Prepared, Target, target, ask, asked, allowed, prepare, enroll_locked, install,
  give_back_old, give_back_new, is_stale,
}
use claimward_vpn_client.Helper.Renew.{
  modify, changed, lease_renewed, renewal_failed, drop_session, heartbeat_call,
}
use claimward_vpn_client.Helper.Requests.{tenants, listed, with_bearer, down, shutdown}
use claimward_vpn_client.Helper.Writes.{
  IsInner, set_lease-IsInner, with_bearer-IsInner, retried, retried-IsInner,
}
use claimward_vpn_client.Helper.Allowed.{allowed_sound, target_allowed}
use claimward_vpn_client.Helper.Steps.{
  Step, prepares, commits, heartbeats, renews, fails, drops, takes_bearer, lists, downs, shuts,
  Reach, here, next,
}

abbrev pub IsServer : Server → String → Type 0
IsServer srv u = Mem u srv.config.servers

abbrev IsKnown : Server → (ℕ → Option Session) → Type 0
IsKnown srv heap = (p : ℕ) (sess : Session) → heap p ≡ some sess → IsServer srv sess.server

-- A configured server, in its answer to an enrollment, named that endpoint for the watch of routes.
abbrev pub Named : Server → String → Type 0
Named srv endpoint =
    (env : Env) × (s : State) × (spec : Option ConnectSpec) × (q : Prepared) × ((prepare srv env s
        spec).1
      ≡ ok q)
    × IsServer srv q.target.server
    × (q.resp.grpc_endpoint ≡ endpoint)

-- Whom a request may be made of.
abbrev pub IsFor : Server → Call → Type 0
IsFor srv (Call.enrolls server bearer key tenant) = IsServer srv server
IsFor srv (Call.renews server bearer key) = IsServer srv server
IsFor srv (Call.lists server bearer) = IsServer srv server
IsFor srv (Call.gives_back server bearer key) = IsServer srv server
IsFor srv (Call.watches endpoint bearer key) = Named srv endpoint

abbrev pub Requests : Server → List Call → Type 0
Requests srv = All (IsFor srv)

pub record Configured (srv : Server) (s : State) : Type 0 where
  pub sessions : (p : ℕ) (sess : Session) → s.heap p ≡ some sess → IsServer srv sess.server
  pub requests : Requests srv s.sent

pub init-Configured : (srv : Server) → Configured srv init
init-Configured srv = record { sessions = λ p sess h. cc; requests = tt }

stop-IsKnown :
    (srv : Server) (s : State) (o : Option ℕ) (l : Option Session)
    → s.sess ≡ o
    → live s ≡ l
    → Configured srv s
    → IsKnown srv (stop_locked s).heap
unfolding stop_locked
stop-IsKnown srv s none l e f v p sess h = v.sessions p sess (ground arith)
stop-IsKnown srv s (some q) none e f v p sess h = v.sessions p sess (ground arith)
stop-IsKnown srv s (some q) (some old) e f v p sess h = elim (Bool-cases (q == p)) [
  | inl same ↦ subst (IsServer srv) (ground arith) (v.sessions q old (ground arith))
  | inr other ↦ v.sessions p sess (ground arith)
]

pub stop_sent : (s : State) → (stop_locked s).sent ≡ s.sent
unfolding stop_locked
stop_sent s = ground arith

pub stop-Configured : {srv : Server} {s : State} → Configured srv s → Configured srv (stop_locked s)
stop-Configured {srv} {s} v = record {
  sessions = stop-IsKnown srv s s.sess (live s) refl refl v;
  requests = subst (Requests srv) (sym (stop_sent s)) v.requests;
}

changed-IsKnown :
    (srv : Server) (s : State) (q : ℕ) (f : Session → Session) (o : Option Session)
    → s.heap q ≡ o
    → IsInner f
    → Configured srv s
    → IsKnown srv (changed s q f o).heap
changed-IsKnown srv s q f none e i v p sess h = v.sessions p sess h
changed-IsKnown srv s q f (some x) e i v p sess h = elim (Bool-cases (q == p)) [
  | inl same ↦ subst (IsServer srv) (sym (i.server_kept x) ∙ ground arith) (v.sessions q x e)
  | inr other ↦ v.sessions p sess (ground arith)
]

changed_sent :
    (s : State) (q : ℕ) (f : Session → Session) (o : Option Session)
    → (changed s q f o).sent ≡ s.sent
changed_sent s q f none = refl
changed_sent s q f (some x) = refl

pub modify-Configured :
    {srv : Server} {s : State} (q : ℕ) (f : Session → Session)
    → IsInner f
    → Configured srv s
    → Configured srv (modify s q f)
modify-Configured {srv} {s} q f i v = record {
  sessions = changed-IsKnown srv s q f (s.heap q) refl i v;
  requests = subst (Requests srv) (sym (changed_sent s q f (s.heap q))) v.requests;
}

pub send-Configured :
    {srv : Server} {s : State} (c : Call)
    → IsFor srv c
    → Configured srv s
    → Configured srv (send s c)
send-Configured c m v = record { sessions = v.sessions; requests = (m, v.requests) }
