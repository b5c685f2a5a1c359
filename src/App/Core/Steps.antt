-- ===== src/App/Core/Steps.antt =====
-- The app's goroutines interleaved, at the grain of the critical sections of pkg/appcore/appcore.go
-- that touch `stopRenew` and the contexts; every other write is one step.
use claimward_vpn_client.Common.{ℕ, ◌≡◌, true}
use claimward_vpn_client.Wire.{Response}
use claimward_vpn_client.App.Core.{Core, stop_loop}
use claimward_vpn_client.App.Core.Actions.{now_connected}
use claimward_vpn_client.App.Core.Renewal.{AppStatus, adopt, loop_ended}

abbrev pub SameLoops : Core → Core → Type 0
SameLoops c d =
    (c.stop_renew ≡ d.stop_renew) × (c.next ≡ d.next) × (c.stopped ≡ d.stopped) × (c.runs ≡ d.runs)

pub data AppStep : Core → Core → Type 0 where
  connects : (c : Core) (r : Response) → AppStep c (now_connected c r)
  stops : (c : Core) → AppStep c (stop_loop c)
  adopts : (c : Core) (st : AppStatus) → AppStep c (adopt c st)
  ends : (c : Core) (i : ℕ) → c.runs i ≡ true → AppStep c (loop_ended c i)
  writes : {c d : Core} → SameLoops c d → AppStep c d

pub data AppReach (c : Core) : Core → Type 0 where
  here : AppReach c c
  next : {d e : Core} → AppReach c d → AppStep d e → AppReach c e
