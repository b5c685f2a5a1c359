-- ===== src/Helper/State.antt =====
-- The helper's state, `session` and `Server` of pkg/helper/helper.go, and the two functions that its
-- critical sections share, `stopLocked` and `setLeaseLocked`.
--
-- Sessions live on a heap, since the renewal loop, the route watch and the server share them by
-- pointer, and one outlives its place in `sess`. Beside the source's fields the state holds what the
-- outside has seen: the tunnels that are up, and the requests made of servers, newest first.
use claimward_vpn_client.Common.{
  ℕ, ◌+◌, ◌%◌, ◌==◌, String, List, [], ◌∷◌, Option, none, some, Bool, true, false, pos, int64_mod,
  if◌then◌else◌,
}
use claimward_vpn_client.Lease.{Time, Duration, add_time, until, is_zero, hour, minute, renew_delay}
use claimward_vpn_client.Wire.{Key, ConnectSpec}

pub record Config : Type 0 where
  pub servers : List String
  pub group : String
  pub socket : String

-- The fields of `Server` that never change.
pub record Server : Type 0 where
  pub config : Config
  pub os : String
  pub platform : String
  pub renew_after : Duration → Duration
  pub retry_after : Duration

-- `New`.
unfoldable pub new_server : Config → String → String → Server
new_server config os platform = record {
  config = config;
  os = os;
  platform = platform;
  renew_after = renew_delay;
  retry_after = pos minute;
}

pub record Tunnel : Type 0 where
  pub handle : ℕ
  pub name : String

pub record Session : Type 0 where
  pub gen : ℕ
  pub server : String
  pub spec : ConnectSpec
  pub pub_key : Key
  pub tun : Tunnel
  pub assigned : String
  pub lease : Time
  pub renew_by : Time
  pub wake : Bool
  pub cancelled : Bool

-- A request made of a server: its base URL, the bearer shown and the key it is about; or the watch of
-- the routes at the endpoint that a server named.
pub data Call : Type 0 where
  enrolls : (server bearer : String) → Key → (tenant : String) → Call
  renews : (server bearer : String) → Key → Call
  lists : (server bearer : String) → Call
  gives_back : (server bearer : String) → Key → Call
  watches : (endpoint bearer : String) → Key → Call

pub record State : Type 0 where
  pub heap : ℕ → Option Session
  pub next : ℕ
  pub sess : Option ℕ
  pub gen : ℕ
  pub last_err : String
  pub up : List Tunnel
  pub sent : List Call

abbrev pub init : State
init = record {
  heap = λ p. none;
  next = 0;
  sess = none;
  gen = 0;
  last_err = "";
  up = [];
  sent = [];
}

abbrev pub put : (ℕ → Option Session) → ℕ → Session → ℕ → Option Session
put heap p v q = if p == q then some v else heap q

-- The session that a pointer names.
abbrev pub deref : (ℕ → Option Session) → Option ℕ → Option Session
deref heap none = none
deref heap (some p) = heap p

abbrev pub live : State → Option Session
live s = deref s.heap s.sess

abbrev pub is_live : State → ℕ → Bool
is_live s p = elim s.sess [ none ↦ false | some q ↦ q == p ]

abbrev pub send : State → Call → State
send s c = record s { sent = c ∷ s.sent }

-- `gen` is a uint64.
abbrev pub next_gen : ℕ → ℕ
next_gen g = (g + 1) % int64_mod

abbrev close : Tunnel → List Tunnel → List Tunnel
close t [] = []
close t (u ∷ us) = if u.handle == t.handle then us else u ∷ close t us

abbrev pub stop_session : State → ℕ → Option Session → State
stop_session s p none = s
stop_session s p (some old) = record s {
  heap = put s.heap p (record old { cancelled = true });
  up = close old.tun s.up;
  sess = none;
  gen = next_gen s.gen;
}

abbrev pub stop_at : State → Option ℕ → State
stop_at s none = s
stop_at s (some p) = stop_session s p (s.heap p)

-- `stopLocked`. The session that it returns is `live` of the state before.
unfoldable pub stop_locked : State → State
stop_locked s = stop_at s s.sess

-- What is left of a lease, and two hours of one that has no end.
abbrev remaining : Time → Time → Duration
remaining lease now = if is_zero lease then pos (hour + hour) else until lease now

-- `setLeaseLocked`. `wake` has room for one value, and a second is dropped.
unfoldable pub set_lease : Server → Time → Session → Time → Session
set_lease srv now sess lease = record sess {
  lease = lease;
  renew_by = add_time now (srv.renew_after (remaining lease now));
  wake = true;
}
