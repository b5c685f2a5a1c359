-- ===== src/App/Core/Ends.antt =====
-- What a disconnect and a status of pkg/appcore/appcore.go do to the renewal loops.
use claimward_vpn_client.Common.{
  ℕ, ◌≡◌, refl, sym, ◌∙◌, none, some, true, false, Bool-cases, Option-cases, ◌⊎◌, inl, inr,
}
use claimward_vpn_client.App.Core.{World, Core, logf, stop_loop, start_loop}
use claimward_vpn_client.App.Core.Actions.{disconnect}
use claimward_vpn_client.App.Core.Renewal.{AppStatus, status, adopt}
use claimward_vpn_client.App.Core.Steps.{adopts}
use claimward_vpn_client.App.Core.OneLoop.{OneLoop, stop-OneLoop, writes-OneLoop, Step-OneLoop}
use claimward_vpn_client.App.Core.Operations.{logf-SameLoops}

-- After a disconnect `stopRenew` names no loop, each renewal loop has ended or been told to, and the
-- core says that there is no connection.
pub disconnect_lem :
    (w : World) {c : Core}
    → OneLoop c
    → (i : ℕ)
    → let d = (disconnect w c).0 in
      (d.connected ≡ false) × (d.stop_renew ≡ none) × ((d.runs i ≡ false) ⊎ (d.stopped i ≡ true))
unfolding disconnect
disconnect_lem w {c} v i =
    let (u, e) = stop-OneLoop (writes-OneLoop (logf-SameLoops w c "disconnecting…") v) in
    let d = stop_loop (logf w c "disconnecting…") in
    elim (Bool-cases (d.stopped i)) [
      | inl told ↦ (refl, e, inr told)
      | inr free ↦ elim (Bool-cases (d.runs i)) [
        | inl runs ↦ absurd (cc (sym (u.only i runs free) ∙ e))
        | inr over ↦ (refl, e, inl over)
      ]
    ]

adopt_named :
    (c : Core) (st : AppStatus)
    → st.connected ≡ true
    → st.logged_in ≡ true
    → (i : ℕ) × ((adopt c st).stop_renew ≡ some i)
unfolding adopt start_loop
adopt_named c st a b = elim (Option-cases c.stop_renew) [
  | inl free ↦ (c.next, rw (a, b, free) refl)
  | inr (i, held) ↦ (i, rw (a, b, held) held)
]

adopt_runs :
    (c : Core) (st : AppStatus)
    → OneLoop c
    → st.connected ≡ true
    → st.logged_in ≡ true
    → (i : ℕ) × ((adopt c st).runs i ≡ true) × ((adopt c st).stopped i ≡ false)
adopt_runs c st v a b =
    let (i, e) = adopt_named c st a b in
    let (r, s) = (Step-OneLoop (adopts c st) v).named i e in (i, r, s)

-- After a status that finds a connection and a sign-in, a renewal loop runs that nobody stopped.
pub status-renewed :
    (w : World) {c : Core}
    → OneLoop c
    → (status w c).1.connected ≡ true
    → (status w c).1.logged_in ≡ true
    → (i : ℕ) × ((status w c).0.runs i ≡ true) × ((status w c).0.stopped i ≡ false)
unfolding status
status-renewed w {c} v a b = adopt_runs c _ v a b
