-- ===== src/Helper/OneTunnel/Installs.antt =====
-- A write to a session, and a new session, of pkg/helper/helper.go keep the one tunnel.
use mathlib.Core.Logic.{◌⊎◌, inl, inr}
use claimward_vpn_client.Common.{
  ℕ, ◌<◌, ◌==◌, ◌≡◌, refl, sym, ◌∙◌, subst, Option, none, some, false, Bool-cases, arith,
}
use claimward_vpn_client.Errors.{Result, ok, err}
use claimward_vpn_client.Lease.{Time}
use claimward_vpn_client.Helper.State.{Server, Session, State, Tunnel, next_gen, set_lease}
use claimward_vpn_client.Helper.Enroll.{Prepared, install, new_session}
use claimward_vpn_client.Helper.Renew.{modify}
use claimward_vpn_client.Helper.OneTunnel.{IsIdle, IsHeld, OneTunnel, restate}
use claimward_vpn_client.Helper.Writes.{IsInner}

modify-stage :
    {s : State} (q : ℕ) (f : Session → Session) (o : Option Session)
    → s.heap q ≡ o
    → IsInner f
    → OneTunnel s
    → IsIdle (modify s q f) ⊎ IsHeld (modify s q f)
modify-stage q f none e i v = ground (arith, v.stage)
modify-stage {s} q f (some x) e i v = elim v.stage [
  | inl idle ↦ inl (ground arith)
  | inr held ↦ elim (Bool-cases (q == held.0)) [
    | inl same ↦ inr (
      held.0,
      f x,
      ground arith,
      ground arith,
      ground (arith, i.gen_kept x),
      ground (arith, i.cancelled_kept x),
      ground (arith, i.tun_kept x),
    )
    | inr other ↦
        inr (held.0, held.1, ground arith, ground arith, ground arith, ground arith, ground arith)
  ]
]

modify-only_live :
    {s : State} (q : ℕ) (f : Session → Session) (o : Option Session)
    → s.heap q ≡ o
    → IsInner f
    → OneTunnel s
    → (p : ℕ) (sess : Session) → (modify s q f).heap p ≡ some sess
    → sess.cancelled ≡ false
    → s.sess ≡ some p
modify-only_live q f none e i v p sess h c = ground (arith, v.only_live p sess)
modify-only_live q f (some x) e i v p sess h c =
    ground (arith, v.only_live p sess, v.only_live p x, i.cancelled_kept x)

modify-sess :
    (s : State) (q : ℕ) (f : Session → Session) (o : Option Session)
    → s.heap q ≡ o
    → ((modify s q f).sess ≡ s.sess) × ((modify s q f).next ≡ s.next)
modify-sess s q f none e = ground arith
modify-sess s q f (some x) e = ground arith

modify-allocated :
    {s : State} (q : ℕ) (f : Session → Session) (o : Option Session)
    → s.heap q ≡ o
    → OneTunnel s
    → (p : ℕ) (sess : Session) → (modify s q f).heap p ≡ some sess
    → p < s.next
modify-allocated q f none e v p sess h = ground (arith, v.allocated p sess)
modify-allocated q f (some x) e v p sess h = ground (arith, v.allocated p sess, v.allocated p x)

pub modify-OneTunnel :
    {s : State} (q : ℕ) (f : Session → Session) → IsInner f → OneTunnel s → OneTunnel (modify s q f)
modify-OneTunnel {s} q f i v =
    let same = modify-sess s q f (s.heap q) refl in
    record {
      stage = modify-stage q f (s.heap q) refl i v;
      only_live = λ p sess h c. same.0 ∙ modify-only_live q f (s.heap q) refl i v p sess h c;
      allocated = λ p sess h.
          subst (λ n. p < n) (sym same.1) (modify-allocated q f (s.heap q) refl v p sess h);
    }

-- A new session in the place of none.
pub install-OneTunnel :
    (srv : Server) (now : Time) {s : State} (p : Prepared) (r : Result Tunnel)
    → s.sess ≡ none
    → OneTunnel s
    → OneTunnel (install srv now s p r).0
unfolding set_lease
install-OneTunnel srv now p (err e) idle v = restate (refl, refl, refl, refl, refl) v
install-OneTunnel srv now {s} p (ok tun) idle v = record {
  stage = inr (
    s.next,
    new_session srv now (next_gen s.gen) p tun,
    refl,
    ground arith,
    refl,
    refl,
    ground (arith, v.stage),
  );
  only_live = λ q sess h c. ground (arith, v.only_live q sess);
  allocated = λ q sess h. ground (arith, v.allocated q sess);
}
