-- ===== src/Helper/Stops.antt =====
-- The two ways in which pkg/helper/helper.go takes a tunnel down: `down`, which gives the enrollment
-- back, and `drop`, which does not.
use claimward_vpn_client.Common.{
  ℕ, ◌≡◌, refl, sym, ◌∙◌, ap, String, List, ◌∷◌, Option, none, some, true, Bool-cases, inl, inr,
  ◌≢◌, ◌⊎◌, arith,
}
use claimward_vpn_client.Helper.State.{Session, State, Call, live, is_live, stop_locked}
use claimward_vpn_client.Helper.Enroll.{give_back_call}
use claimward_vpn_client.Helper.Renew.{drop_session}
use claimward_vpn_client.Helper.Requests.{down, give_back_stopped}
use claimward_vpn_client.Helper.OneTunnel.{IsIdle, OneTunnel, stop-IsIdle}
use claimward_vpn_client.Helper.Configured.{stop_sent}

stop_idle : (s : State) → s.sess ≡ none → stop_locked s ≡ s
unfolding stop_locked
stop_idle s h = rw h

pub stop_next : (s : State) → (stop_locked s).next ≡ s.next
unfolding stop_locked
stop_next s = ground arith

-- The request that gives a session back, if there is a session.
abbrev pub returns : Option Session → List Call → List Call
returns none calls = calls
returns (some old) calls = give_back_call old ∷ calls

give_back_stopped_lem :
    (s : State) (o : Option Session)
    → ((give_back_stopped s o).sess ≡ s.sess)
      × ((give_back_stopped s o).up ≡ s.up)
      × ((give_back_stopped s o).last_err ≡ s.last_err)
      × ((give_back_stopped s o).sent ≡ returns o s.sent)
give_back_stopped_lem s none = (refl, refl, refl, refl)
give_back_stopped_lem s (some old) = (refl, refl, refl, refl)

-- After a disconnect of a helper with at most one tunnel, none is up, no session is live and no error
-- is left; the enrollment of the session that was live has been given back, with its own bearer and
-- key, and nothing else sent.
pub down_lem :
    {s : State}
    → OneTunnel s
    → let (t, reply) = down s in
      IsIdle t × (t.last_err ≡ "") × (t.sent ≡ returns (live s) s.sent) × (reply.succeeded ≡ true)
unfolding down
down_lem {s} v =
    let (a, b, c, d) = give_back_stopped_lem (record (stop_locked s) { last_err = "" }) (live s) in
    let idle = stop-IsIdle v in
    ((a ∙ idle.0, b ∙ idle.1), c, d ∙ ap (returns (live s)) (stop_sent s), refl)

down_idle : (s : State) → s.sess ≡ none → (down s).0 ≡ record s { last_err = "" }
unfolding down
down_idle s h = rw (stop_idle s h, h)

-- In a helper with at most one tunnel, a second disconnect changes nothing and asks nothing of any server.
pub down-down : {s : State} → OneTunnel s → (down (down s).0).0 ≡ (down s).0
down-down {s} v =
    let (idle, e, _, _) = down_lem v in
    down_idle (down s).0 idle.0 ∙ ap (λ m. record (down s).0 { last_err = m }) (sym e)

-- In a helper with at most one tunnel, dropping a session takes it down if it is the live one, with
-- the reason as the last error and nothing sent to the server, and changes nothing otherwise.
pub drop_session_lem :
    {s : State} (p : ℕ) (why : String)
    → OneTunnel s
    → let t = drop_session s p why in
      ((s.sess ≡ some p) × IsIdle t × (t.last_err ≡ why) × (t.sent ≡ s.sent))
      ⊎ ((s.sess ≢ some p) × (t ≡ s))
unfolding drop_session
drop_session_lem {s} p why v = elim (Bool-cases (is_live s p)) [
  | inl at ↦ rw at (inl (ground arith, stop-IsIdle v, refl, stop_sent s))
  | inr past ↦ rw past (inr (λ e. absurd (ground arith), refl))
]

-- The session that it takes down is live no more.
pub drop_session-past :
    {s : State} (p : ℕ) (why : String) → OneTunnel s → (drop_session s p why).sess ≢ some p
drop_session-past {s} p why v again = elim (drop_session_lem p why v) [
  | inl gone ↦ ground (arith, gone.1)
  | inr (other, same) ↦ other (ap (λ t. t.sess) (sym same) ∙ again)
]
