-- ===== src/Helper/Allowed.antt =====
-- Which servers `allowed` of pkg/helper/helper.go lets through.
use mathlib.Core.List.{Mem, mem-cons_self, mem-cons_of_mem, not-mem-nil, mem-cons}
use mathlib.Core.Logic.Or
use claimward_vpn_client.Common.{
  ◌≡◌, ap, String, List, [], ◌∷◌, Option, none, some, false, Bool-cases, Option-cases, inl, inr,
  ◌≢◌, str_eq, is_blank, trim_right, eq_iff, arith, sym, ◌∙◌,
}
use claimward_vpn_client.Errors.{ok}
use claimward_vpn_client.Wire.{ConnectSpec}
use claimward_vpn_client.Helper.State.{Server}
use claimward_vpn_client.Helper.Enroll.{Env, Target, find_server, allowed, target}

pub find_server_sound :
    (want : String) (us : List String) (u : String)
    → find_server want us ≡ some u
    → Mem u us × (trim_right u ≡ want)
unfolding find_server
find_server_sound want [] u h = cc
find_server_sound want (x ∷ us) u h = elim (Bool-cases (str_eq (trim_right x) want)) [
  | inl hit ↦
      let e : x ≡ u = ground arith in
      (rw e mem-cons_self, ap trim_right (sym e) ∙ (eq_iff _ _).0 hit)
  | inr miss ↦ let (m, e) = find_server_sound want us u (ground arith) in (mem-cons_of_mem x m, e)
]

find_server_complete :
    (want : String) (us : List String)
    → find_server want us ≡ none
    → (u : String) → Mem u us
    → trim_right u ≢ want
unfolding find_server
find_server_complete want [] h u m e = not-mem-nil m
find_server_complete want (x ∷ us) h u m e = elim (Bool-cases (str_eq (trim_right x) want)) [
  | inl hit ↦ ground arith
  | inr miss ↦
      Or.elim (λ a. absurd a) (mem-cons.0 m)
        (λ (q : u ≡ x). ground (arith, eq_iff (trim_right x) want))
        (λ k. find_server_complete want us (ground arith) u k e)
]

-- A server that is let through is one of the configuration's, as it is written there, and the one
-- that the request names, trailing slashes apart; the request carries a bearer.
pub allowed_sound :
    (srv : Server) (spec : ConnectSpec) (u : String)
    → allowed srv (some spec) ≡ ok u
    → Mem u srv.config.servers
      × (trim_right u ≡ trim_right spec.server_url)
      × (is_blank spec.bearer ≡ false)
unfolding allowed
allowed_sound srv spec u h =
    let want = trim_right spec.server_url in
    elim (Option-cases (find_server want srv.config.servers)) [
      | inl e ↦ absurd (ground (arith, e))
      | inr (v, e) ↦
          let found : find_server want srv.config.servers ≡ some u = ground (arith, e) in
          let (m, same) = find_server_sound want srv.config.servers u found in
          (m, same, ground arith)
    ]

-- A request with a bearer that names a configured server is let through.
pub allowed_complete :
    (srv : Server) (spec : ConnectSpec) (u : String)
    → is_blank spec.bearer ≡ false
    → Mem u srv.config.servers
    → trim_right u ≡ trim_right spec.server_url
    → (v : String) × (allowed srv (some spec) ≡ ok v)
unfolding allowed
allowed_complete srv spec u b m same =
    let want = trim_right spec.server_url in
    elim (Option-cases (find_server want srv.config.servers)) [
      | inl e ↦ absurd (find_server_complete want srv.config.servers e u m same)
      | inr (v, e) ↦ (v, rw (b, e))
    ]

-- The server that an enrollment asks is a configured one.
pub target_allowed :
    (srv : Server) (env : Env) (spec : Option ConnectSpec) (t : Target)
    → target srv env spec ≡ ok t
    → Mem t.server srv.config.servers
unfolding target
target_allowed srv env none t h = cc
target_allowed srv env (some spec) t h = (allowed_sound srv spec t.server (ground arith)).0
