-- ===== src/Helper/RenewLoop.antt =====
-- `renewLoop` of pkg/helper/helper.go, interleaved with the helper's other goroutines.
--
-- What a renewal does to the state are steps of `Helper.Steps`, here and in a request's handler alike.
pub mod Kept
pub mod Wakes
use claimward_vpn_client.Common.{ℕ, ◌≤◌, ◌≡◌, Option, some, Bool, true, false, pos, max_ℤ}
use claimward_vpn_client.Lease.{Time, add_time, until}
use claimward_vpn_client.Helper.State.{Server, Session, State}
use claimward_vpn_client.Helper.Renew.{modify}
use claimward_vpn_client.Helper.Steps.{Step}

-- Where the loop is: about to read when the renewal is due, asleep since `since` on what it read in
-- the session, renewing, or returned.
pub data Place : Type 0 where
  reading : Place
  sleeping : (since : Time) (seen : Session) → Place
  renewing : Place
  returned : Place

pub record Loop : Type 0 where
  pub state : State
  pub place : Place

-- When a timer runs out that was started at `since`.
abbrev pub timer : Time → Session → Time
timer since seen = add_time since (max_ℤ (until seen.renew_by since) (pos 0))

-- A value is taken from `wake`.
abbrev pub heard : Session → Session
heard sess = record sess { wake = false }

-- Whether the loop goes on is what `renew` says.
abbrev pub again_at : Bool → Place
again_at true = reading
again_at false = returned

-- A turn of the loop of the session at `p`, or of anything else. Of the cases of the `select` that are
-- ready, any is taken.
pub data Turn (srv : Server) (p : ℕ) : Loop → Loop → Type 0 where
  others :
      (s t : State) (at : Place)
      → Step srv s t
      → Turn srv p (record { state = s; place = at }) (record { state = t; place = at })
  reads :
      (now : Time) (s : State) (sess : Session)
      → s.heap p ≡ some sess
      → Turn srv p
          (record { state = s; place = reading })
          (record { state = s; place = sleeping now sess })
  cancels :
      (s : State) (since : Time) (seen sess : Session)
      → s.heap p ≡ some sess
      → sess.cancelled ≡ true
      → Turn srv p
          (record { state = s; place = sleeping since seen })
          (record { state = s; place = returned })
  wakes :
      (s : State) (since : Time) (seen sess : Session)
      → s.heap p ≡ some sess
      → sess.wake ≡ true
      → Turn srv p
          (record { state = s; place = sleeping since seen })
          (record { state = modify s p heard; place = reading })
  fires :
      (now : Time) (s : State) (since : Time) (seen : Session)
      → timer since seen ≤ now
      → Turn srv p
          (record { state = s; place = sleeping since seen })
          (record { state = s; place = renewing })
  renewed :
      (s : State) (again : Bool)
      → Turn srv p
          (record { state = s; place = renewing })
          (record { state = s; place = again_at again })

pub data Turns (srv : Server) (p : ℕ) (l : Loop) : Loop → Type 0 where
  here : Turns srv p l l
  next : {m n : Loop} → Turns srv p l m → Turn srv p m n → Turns srv p l n
