-- ===== src/App/Core/OneLoop.antt =====
-- At most one renewal loop of pkg/appcore/appcore.go goes on: the one that `stopRenew` names.
use claimward_vpn_client.Common.{
  ℕ, ◌<◌, ◌≡◌, refl, sym, ◌∙◌, subst, String, Option, none, some, true, false, Bool-cases,
  Option-cases, inl, inr, arith, ◌&&◌,
}
use claimward_vpn_client.Store.{Files}
use claimward_vpn_client.App.Config.{Config}
use claimward_vpn_client.App.Core.{Core, new_core, start_loop, stop_loop, stop_named}
use claimward_vpn_client.App.Core.Actions.{now_connected}
use claimward_vpn_client.App.Core.Renewal.{adopt, loop_ended}
use claimward_vpn_client.App.Core.Steps.{
  SameLoops, AppStep, connects, stops, adopts, ends, writes, AppReach, here, next,
}

-- `only` and `named`: the loops that run and were not stopped are the one that `stopRenew` names.
pub record OneLoop (c : Core) : Type 0 where
  pub only : (i : ℕ) → c.runs i ≡ true → c.stopped i ≡ false → c.stop_renew ≡ some i
  pub named : (i : ℕ) → c.stop_renew ≡ some i → (c.runs i ≡ true) × (c.stopped i ≡ false)
  pub made : (i : ℕ) → c.runs i ≡ true → i < c.next
  pub ended : (i : ℕ) → c.stopped i ≡ true → i < c.next

pub new-OneLoop : (cfg : Config) (path : String) (f : Files) → OneLoop (new_core cfg path f)
new-OneLoop cfg path f = record {
  only = λ i r s. absurd (cc);
  named = λ i e. absurd (cc);
  made = λ i r. absurd (cc);
  ended = λ i s. absurd (cc);
}

pub writes-OneLoop : {c d : Core} → SameLoops c d → OneLoop c → OneLoop d
writes-OneLoop {c} {d} e v = record {
  only = λ i r s. sym e.0 ∙ v.only i ((λ k. e.3 k i) ∙ r) ((λ k. e.2 k i) ∙ s);
  named =
      λ i h. let n = v.named i (e.0 ∙ h) in ((λ k. sym e.3 k i) ∙ n.0, (λ k. sym e.2 k i) ∙ n.1);
  made = λ i r. subst (λ n. i < n) e.1 (v.made i ((λ k. e.3 k i) ∙ r));
  ended = λ i s. subst (λ n. i < n) e.1 (v.ended i ((λ k. e.2 k i) ∙ s));
}

stop_named-OneLoop :
    {c : Core} (o : Option ℕ)
    → c.stop_renew ≡ o
    → OneLoop c
    → OneLoop (stop_named c o) × ((stop_named c o).stop_renew ≡ none)
stop_named-OneLoop none e v = (v, e)
stop_named-OneLoop {c} (some p) e v = (
  record {
    only = λ i r s. ground (arith, v.only i, e);
    named = λ i h. absurd (cc);
    made = λ i r. v.made i r;
    ended = λ i s. ground (arith, v.ended i, v.made p, v.named p);
  },
  refl,
)

pub stop-OneLoop :
    {c : Core} → OneLoop c → OneLoop (stop_loop c) × ((stop_loop c).stop_renew ≡ none)
unfolding stop_loop
stop-OneLoop {c} v = stop_named-OneLoop c.stop_renew refl v

start-OneLoop : {c : Core} → c.stop_renew ≡ none → OneLoop c → OneLoop (start_loop c)
unfolding start_loop
start-OneLoop {c} e v = record {
  only = λ i r s. ground (arith, v.only i, e);
  named = λ i h. ground (arith, v.ended c.next, Bool-cases (c.stopped c.next));
  made = λ i r. ground (arith, v.made i);
  ended = λ i s. omega (arith, v.ended i s);
}

ends-OneLoop : {c : Core} (i : ℕ) → c.runs i ≡ true → OneLoop c → OneLoop (loop_ended c i)
unfolding loop_ended
ends-OneLoop {c} i r v = elim (Bool-cases (c.stopped i)) [
  | inl s ↦ record {
    only = λ j q f. ground (arith, v.only j);
    named = λ j h. ground (arith, v.named j);
    made = λ j q. ground (arith, v.made j);
    ended = λ j q. v.ended j q;
  }
  | inr s ↦ record {
    only = λ j q f. ground (arith, v.only j, v.only i r s);
    named = λ j h. absurd (ground arith);
    made = λ j q. ground (arith, v.made j);
    ended = λ j q. v.ended j q;
  }
]

-- Every critical section keeps the loops so.
pub Step-OneLoop : {c d : Core} → AppStep c d → OneLoop c → OneLoop d
unfolding now_connected adopt
Step-OneLoop (connects c r) v =
    let past = stop-OneLoop (
      writes-OneLoop
        {d = record c {
          connected = true;
          iface = r.interface;
          assigned = r.assigned_ip;
          tenant_required = false;
        }}
        (refl, refl, refl, refl) v) in
    start-OneLoop past.1 past.0
Step-OneLoop (stops c) v = (stop-OneLoop v).0
Step-OneLoop (adopts c st) v = elim (Bool-cases (st.connected && st.logged_in)) [
  | inr e ↦ rw e v
  | inl e ↦ elim (Option-cases c.stop_renew) [
    | inl free ↦ rw (e, free) (start-OneLoop free v)
    | inr (i, held) ↦ rw (e, held) v
  ]
]
Step-OneLoop (ends c i r) v = ends-OneLoop i r v
Step-OneLoop (writes e) v = writes-OneLoop e v

-- From a core just made, whatever the app does and its helper answers, the renewal loops that run and
-- have not been stopped are exactly the one that `stopRenew` names, if it names one.
pub Reach-OneLoop :
    {cfg : Config} {path : String} {f : Files} {c : Core}
    → AppReach (new_core cfg path f) c
    → OneLoop c
Reach-OneLoop {cfg} {path} {f} here = new-OneLoop cfg path f
Reach-OneLoop (next r st) = Step-OneLoop st (Reach-OneLoop r)
