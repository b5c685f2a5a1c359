-- ===== src/Helper/RenewLoop/Wakes.antt =====
-- No new lease is slept through by the renewal loop of pkg/helper/helper.go.
use claimward_vpn_client.Common.{
  ℕ, ◌≤◌, ◌<◌, ◌+◌, ◌≡◌, refl, sym, ◌⊎◌, inr, some, true, false, arith, subst, int64_half, pos,
}
use claimward_vpn_client.Errors.{Error}
use claimward_vpn_client.Lease.{Time, add_time}
use claimward_vpn_client.Helper.State.{Server, Session, State}
use claimward_vpn_client.Helper.Renew.{modify, renewal_failed, retry_delay}
use claimward_vpn_client.Helper.Steps.{fails}
use claimward_vpn_client.Helper.OneTunnel.{OneTunnel}
use claimward_vpn_client.Helper.OneTunnel.Installs.{modify-OneTunnel}
use claimward_vpn_client.Helper.OneTunnel.Steps.{Step-OneTunnel}
use claimward_vpn_client.Helper.RenewLoop.{
  Place, reading, sleeping, renewing, returned, Loop, timer, heard, Turn, others, reads, cancels,
  wakes, fires, renewed, Turns, here, next,
}
use claimward_vpn_client.Helper.RenewLoop.Kept.{Kept, Step-Keeps}

-- When the timer that the loop sets at `since` runs out: at once where the renewal was due before, and
-- else when it is due, if that is within 292 years.
abbrev pub Timed : Time → Session → Type 0
Timed since seen =
    (seen.renew_by ≤ since → timer since seen ≡ since)
    × (since ≤ seen.renew_by
        → seen.renew_by < since + int64_half
        → timer since seen ≡ seen.renew_by)

timer_lem : (since : Time) (seen : Session) → Timed since seen
timer_lem since seen = (λ h. ground arith, λ h k. ground arith)

-- A loop asleep with nothing in `wake` sleeps on the lease that the session has.
abbrev pub Told : Place → Session → Type 0
Told reading sess = Unit
Told (sleeping since seen) sess =
    ((sess.wake ≡ true) ⊎ (sess.lease ≡ seen.lease)) × Timed since seen
Told renewing sess = Unit
Told returned sess = Unit

abbrev pub IsTold : ℕ → Loop → Type 0
IsTold p l =
    OneTunnel l.state × ((sess : Session) × (l.state.heap p ≡ some sess) × Told l.place sess)

Kept-lease :
    (x y : Session)
    → Kept x y
    → {seen : Time} → (x.wake ≡ true) ⊎ (x.lease ≡ seen)
    → (y.wake ≡ true) ⊎ (y.lease ≡ seen)
Kept-lease x y k t = ground arith

Kept-Told : (at : Place) (x y : Session) → Kept x y → Told at x → Told at y
Kept-Told reading x y k t = tt
Kept-Told (sleeping since seen) x y k (t, timed) = (Kept-lease x y k t, timed)
Kept-Told renewing x y k t = tt
Kept-Told returned x y k t = tt

heard-OneTunnel : (s : State) (p : ℕ) → OneTunnel s → OneTunnel (modify s p heard)
heard-OneTunnel s p v =
    modify-OneTunnel p heard
      (record {
        gen_kept = λ x. refl;
        tun_kept = λ x. refl;
        server_kept = λ x. refl;
        cancelled_kept = λ x. refl;
      })
      v

heard_here :
    (s : State) (p : ℕ) (sess : Session)
    → s.heap p ≡ some sess
    → (modify s p heard).heap p ≡ some (heard sess)
heard_here s p sess e = rw e (ground arith)

Turn-Told : {srv : Server} {p : ℕ} {l m : Loop} → Turn srv p l m → IsTold p l → IsTold p m
Turn-Told {p = p} (others s t at st) (v, (x, e, told)) =
    let (y, f, k) = Step-Keeps p st (v.allocated p x e) x e in
    (Step-OneTunnel st v, (y, f, Kept-Told at x y k told))
Turn-Told (reads now s sess e) (v, _) = (v, (sess, e, (inr refl, timer_lem now sess)))
Turn-Told (cancels s since seen sess e c) (v, _) = (v, (sess, e, tt))
Turn-Told {p = p} (wakes s since seen sess e w) (v, _) =
    (heard-OneTunnel s p v, (heard sess, heard_here s p sess e, tt))
Turn-Told (fires now s since seen due) (v, (x, e, _)) = (v, (x, e, tt))
Turn-Told (renewed s true) (v, (x, e, _)) = (v, (x, e, tt))
Turn-Told (renewed s false) (v, (x, e, _)) = (v, (x, e, tt))

-- However the loop of a session of a helper with at most one tunnel is interleaved, from when it
-- first reads, with the helper's other goroutines, the session stays on the heap and there is at
-- most one tunnel; and while the loop sleeps, either a value waits in `wake`, or the session's
-- lease is the one that it had when the loop set its timer; which runs out when the renewal that
-- was due then is due, if that is within 292 years, or at once if it was due already.
pub Turns-Told :
    {srv : Server} {p : ℕ} {l m : Loop} (sess : Session)
    → OneTunnel l.state
    → l.state.heap p ≡ some sess
    → l.place ≡ reading
    → Turns srv p l m
    → IsTold p m
Turns-Told {p = p} {l} sess v e at here = (v, (sess, e, subst (λ a. Told a sess) (sym at) tt))
Turns-Told sess v e at (next ts t) = Turn-Told t (Turns-Told sess v e at ts)

retry_soon :
    (srv : Server) (now : Time) (sess : Session) (r : ℕ)
    → srv.retry_after ≡ pos r
    → add_time now (retry_delay srv now sess) ≤ now + r
unfolding retry_delay
retry_soon srv now sess r k = ground arith

lt_of_le-lt : {a b c : ℕ} → a ≤ b → b < c → a < c
lt_of_le-lt h k = omega arith

-- A renewal that fails while the loop of its session sleeps with nothing in `wake`, as one that
-- the app asks for may, sets the next try without waking the loop: where the retry interval ends
-- before the loop's timer, that try is due before the timer and the loop sleeps on.
pub fails-unheard :
    (srv : Server) (now : Time) (s : State) (p : ℕ) (e : Error) (since : Time) (seen sess : Session)
    (r : ℕ)
    → s.heap p ≡ some sess
    → sess.wake ≡ false
    → srv.retry_after ≡ pos r
    → now + r < timer since seen
    → let t = renewal_failed srv now s p e in
      Turn srv p
        (record { state = s; place = sleeping since seen })
        (record { state = t; place = sleeping since seen })
      × ((y : Session) × (t.heap p ≡ some y) × (y.wake ≡ false) × (y.renew_by < timer since seen))
unfolding renewal_failed retry_delay
fails-unheard srv now s p e since seen sess r h w k late = (
  others s (renewal_failed srv now s p e) (sleeping since seen) (fails now s p e),
  rw h (
    record sess { renew_by = add_time now (retry_delay srv now sess) },
    ground arith,
    w,
    lt_of_le-lt (retry_soon srv now sess r k) late,
  ),
)
