-- ===== src/Auth/GitHub/Polling.antt =====
-- The loop of the GitHub device flow (pkg/auth/github.go) ends, and what a login brings back.
use claimward_vpn_client.Common.{
  ℕ, zero, suc, ◌+◌, ◌*◌, ◌≤◌, ◌<◌, ltb, ◌≡◌, refl, sym, ap, ◌∙◌, ◌⊎◌, inl, inr, ◌+++◌, [], ◌∷◌,
  none, some, true, false, is_blank, ℤ, pos, negsuc, pos_part, leb_ℤ, mul_int64, add_int64,
  if◌then◌else◌, Bool-cases, arith,
}
use claimward_vpn_client.Errors.{plain, Result, ok, err}
use claimward_vpn_client.Lease.{Time, Duration, second}
use claimward_vpn_client.Auth.{Token, kind_access_token}
use claimward_vpn_client.Auth.GitHub.{
  GitHubProvider, DeviceCode, TokenAnswer, Wake, cancelled, woke, Github, Round, ended, again,
  verdict, answered, ask_token, deadline, first_interval, after_wait, round, poll, login,
  with_device, ask_device, prompt_of,
}

-- No timer fires before its time.
abbrev pub Timely : Github → Type 0
Timely w = (k : ℕ) (t : Time) (d : Duration) (u : Time) → w.wait k t d ≡ woke u → t + pos_part d ≤ u

seconds_exact : (n : ℕ) → n ≤ 9000000000 → mul_int64 (pos n) second ≡ pos (n * second)
seconds_exact n h = ground arith

five_more : (n : ℕ) → n ≤ 9000000000 → add_int64 (pos n) (pos 5) ≡ pos (n + 5)
five_more n h = ground arith

not_past : (a b : ℕ) → ltb a b ≡ false → b ≤ a
not_past a b h = ground arith

verdict_again :
    (i j : ℤ) (t u : Time) (a : TokenAnswer)
    → verdict i t a ≡ again j u
    → (t ≡ u) × ((j ≡ i) ⊎ (j ≡ add_int64 i (pos 5)))
verdict_again i j t u a h = ground arith

Round-cases :
    (r : Round) → ((x : Result Token) × (r ≡ ended x)) ⊎ ((i : ℤ) × (u : Time) × (r ≡ again i u))
Round-cases (ended x) = inl (x, refl)
Round-cases (again i u) = inr (i, u, refl)

next_interval :
    (n : ℕ) (i : ℤ)
    → n ≤ 9000000000
    → (i ≡ pos n) ⊎ (i ≡ add_int64 (pos n) (pos 5))
    → (m : ℕ) × (i ≡ pos m) × (n ≤ m) × (m ≤ n + 5)
next_interval n i small (inl e) = (n, e, omega arith, omega arith)
next_interval n i small (inr e) = (n + 5, e ∙ five_more n small, omega arith, omega arith)

module _ (w : Github) (p : GitHubProvider) (dc : DeviceCode) where
  -- Another round comes no later than the deadline, after the wait, with an interval that is the
  -- same or five seconds more.
  round_again :
      (k : ℕ) (i j : ℤ) (t u : Time)
      → Timely w
      → round w p k dc i t ≡ again j u
      → (t + pos_part (mul_int64 i second) ≤ u)
        × (u ≤ deadline w p dc)
        × ((j ≡ i) ⊎ (j ≡ add_int64 i (pos 5)))
  unfolding round
  round_again k i j t u timely =
      woken (w.wait k t (mul_int64 i second)) (timely k t (mul_int64 i second))
    where
      answer :
          (v : Time) (a : Result TokenAnswer)
          → answered i v a ≡ again j u
          → (v ≡ u) × ((j ≡ i) ⊎ (j ≡ add_int64 i (pos 5)))
      answer v (err e) h = cc
      answer v (ok a) h = verdict_again i j v u a h

      woken :
          (x : Wake)
          → ((v : Time) → x ≡ woke v → t + pos_part (mul_int64 i second) ≤ v)
          → after_wait w p k dc i x ≡ again j u
          → (t + pos_part (mul_int64 i second) ≤ u)
            × (u ≤ deadline w p dc)
            × ((j ≡ i) ⊎ (j ≡ add_int64 i (pos 5)))
      woken (cancelled e) late h = cc
      woken (woke v) late h = elim (Bool-cases (ltb (deadline w p dc) v)) [
        | inl past ↦ let h' = simp past at h in cc
        | inr still ↦
            let a = answer v (ask_token w p (suc k) dc) (simp still at h) in
            let l = late v refl in
            (omega (arith, a.0, l), omega (arith, a.0, not_past (deadline w p dc) v still), a.1)
      ]

  poll-ended :
      (fuel k : ℕ) (i : ℤ) (t : Time) (r : Result Token)
      → round w p k dc i t ≡ ended r
      → poll w p (suc fuel) k dc i t ≡ some r
  unfolding poll
  poll-ended fuel k i t r f = rw (f, poll) refl

  poll-again :
      (fuel k : ℕ) (i : ℤ) (t : Time) (j : ℤ) (u : Time)
      → round w p k dc i t ≡ again j u
      → poll w p (suc fuel) k dc i t ≡ poll w p fuel (suc k) dc j u
  unfolding poll
  poll-again fuel k i t j u f = rw (f, poll) refl

  within :
      (e : ℕ) (u : Time)
      → dc.expires_in ≡ pos e
      → e ≤ 9000000000
      → u ≤ deadline w p dc
      → u ≤ w.now + e * second
  within e u lasts bound before =
      let whole = seconds_exact e bound in
      let at : deadline w p dc ≡ w.now + e * second = rw lasts (rw whole (omega arith)) in
      omega (arith, before, at)

  rounds_left :
      (e k n : ℕ) (t u : Time)
      → dc.expires_in ≡ pos e
      → e ≤ 1000000000
      → 0 < n
      → w.now + k * second ≤ t
      → t + n * second ≤ u
      → u ≤ deadline w p dc
      → suc k ≤ e
  rounds_left e k n t u lasts bound positive late passed before =
      let h : u ≤ w.now + e * second = within e u lasts (omega (arith, bound)) before in
      omega (arith, h, late, passed, positive)

  -- The rounds that are left are enough, where the code lasts `e` seconds and `k` rounds are over.
  poll_ends :
      (e : ℕ)
      → dc.expires_in ≡ pos e
      → e ≤ 1000000000
      → Timely w
      → (fuel k n : ℕ) (t : Time) → k + fuel ≡ suc e
      → k ≤ e
      → 0 < n
      → n ≤ 1000000000 + 5 * k
      → w.now + k * second ≤ t
      → (r : Result Token) × (poll w p fuel k dc (pos n) t ≡ some r)
  poll_ends e lasts bound timely zero k n t enough left positive small late =
      absurd (omega (arith, enough, left))
  poll_ends e lasts bound timely (suc fuel) k n t enough left positive small late =
      elim (Round-cases (round w p k dc (pos n) t)) [
        | inl (r, f) ↦ (r, poll-ended fuel k (pos n) t r f)
        | inr (i, u, f) ↦
            let (waited, before, next) = round_again k (pos n) i t u timely f in
            let exact = seconds_exact n (omega (arith, small, left, bound)) in
            let passed : t + n * second ≤ u = omega (arith, waited, ap pos_part exact) in
            let (m, same, more, less) =
              next_interval n i (omega (arith, small, left, bound)) next in
            let (r, g) =
              poll_ends e lasts bound timely fuel (suc k) m u (omega (arith, enough))
                (rounds_left e k n t u lasts bound positive late passed before)
                (omega (arith, positive, more)) (omega (arith, small, less))
                (omega (arith, late, positive, passed)) in
            (r, poll-again fuel k (pos n) t i u f ∙ rw same g)
      ]

  -- A token of a login: GitHub gave it in an answer to a request with the code, without an error.
  abbrev pub Granted : Token → Type 0
  Granted tok =
      (m : ℕ) × (a : TokenAnswer) × (ask_token w p m dc ≡ ok a)
      × (is_blank a.error ≡ true)
      × (tok.value ≡ a.access_token)
      × (is_blank tok.value ≡ false)
      × (tok.kind ≡ kind_access_token)

  verdict_token :
      (i : ℤ) (t : Time) (a : TokenAnswer) (tok : Token)
      → verdict i t a ≡ ended (ok tok)
      → (is_blank a.error ≡ true)
        × (tok.value ≡ a.access_token)
        × (is_blank tok.value ≡ false)
        × (tok.kind ≡ kind_access_token)
  verdict_token i t a tok h = ground arith

  round_token :
      (k : ℕ) (i : ℤ) (t : Time) (tok : Token) → round w p k dc i t ≡ ended (ok tok) → Granted tok
  unfolding round
  round_token k i t tok = woken (w.wait k t (mul_int64 i second))
    where
      answer :
          (v : Time) (r : Result TokenAnswer)
          → ask_token w p (suc k) dc ≡ r
          → answered i v r ≡ ended (ok tok)
          → Granted tok
      answer v (err e) f h = cc
      answer v (ok a) f h =
          let (b, c, d, e) = verdict_token i v a tok h in (suc k, a, f, b, c, d, e)

      woken : (x : Wake) → after_wait w p k dc i x ≡ ended (ok tok) → Granted tok
      woken (cancelled e) h = cc
      woken (woke v) h = elim (Bool-cases (ltb (deadline w p dc) v)) [
        | inl past ↦ let h' = simp past at h in cc
        | inr still ↦ answer v (ask_token w p (suc k) dc) refl (simp still at h)
      ]

  poll_token :
      (fuel k : ℕ) (i : ℤ) (t : Time) (tok : Token)
      → poll w p fuel k dc i t ≡ some (ok tok)
      → Granted tok
  poll_token zero k i t tok h = let h' : none ≡ some (ok tok) = unfold poll in h in cc
  poll_token (suc fuel) k i t tok h = elim (Round-cases (round w p k dc i t)) [
    | inl (r, f) ↦
        let same : some r ≡ some (ok tok) = sym (poll-ended fuel k i t r f) ∙ h in
        let e : r ≡ ok tok = cc in round_token k i t tok (f ∙ ap (λ (x : Result Token). ended x) e)
    | inr (j, u, f) ↦ poll_token fuel (suc k) j u tok (sym (poll-again fuel k i t j u f) ∙ h)
  ]

-- With timers that do not fire early, a login for which GitHub gives a code that lasts `e` seconds
-- and asks for an interval, both at most a billion seconds, comes to a result within e + 1 rounds of
-- polling, whatever GitHub answers and however often it asks to slow down.
pub login_ends :
    (w : Github) (p : GitHubProvider) (dc : DeviceCode) (e : ℕ)
    → Timely w
    → ask_device w p ≡ ok dc
    → dc.expires_in ≡ pos e
    → e ≤ 1000000000
    → pos_part dc.interval ≤ 1000000000
    → (r : Result Token) × ((login w p (suc e)).outcome ≡ some r)
unfolding login
login_ends w p dc e timely asked lasts bound interval = elim (Bool-cases (is_blank dc.error)) [
  | inr bad ↦ (
    err (plain ("github device code: " +++ dc.error +++ ": " +++ dc.description)),
    rw asked (rw bad refl),
  )
  | inl good ↦
      let (n, same, positive, small) = first dc.interval interval in
      let (r, f) =
        poll_ends w p dc e lasts bound timely (suc e) 0 n w.now (omega arith) (omega arith) positive
          (omega (arith, small)) (omega arith) in
      (r, rw asked (rw good (rw same f)))
]
  where
    first :
        (i : ℤ)
        → pos_part i ≤ 1000000000
        → (n : ℕ) × ((if leb_ℤ i (pos 0) then pos 5 else i) ≡ pos n) × (0 < n) × (n ≤ 1000000000)
    first (pos zero) h = (5, refl, omega arith, omega arith)
    first (pos (suc n)) h = (suc n, ground arith, omega arith, h)
    first (negsuc n) h = (5, ground arith, omega arith, omega arith)

-- A login that brings back a token has shown one prompt, of the code that GitHub gave without an
-- error, and the token is an access token, not blank, that GitHub gave without an error in answer to
-- a request with that code.
pub login_token :
    (w : Github) (p : GitHubProvider) (fuel : ℕ) (tok : Token)
    → (login w p fuel).outcome ≡ some (ok tok)
    → (dc : DeviceCode) × (ask_device w p ≡ ok dc)
      × (is_blank dc.error ≡ true)
      × ((login w p fuel).prompted ≡ prompt_of w p dc ∷ [])
      × Granted w p dc tok
unfolding login
login_token w p fuel tok h = at (ask_device w p) h
  where
    at :
        (r : Result DeviceCode)
        → (with_device w p fuel r).outcome ≡ some (ok tok)
        → (dc : DeviceCode) × (r ≡ ok dc)
          × (is_blank dc.error ≡ true)
          × ((with_device w p fuel r).prompted ≡ prompt_of w p dc ∷ [])
          × Granted w p dc tok
    at (err e) k = cc
    at (ok dc) k = elim (Bool-cases (is_blank dc.error)) [
      | inr bad ↦ let k' = simp bad at k in cc
      | inl good ↦ (
        dc,
        refl,
        good,
        rw good refl,
        poll_token w p dc fuel 0 (first_interval w p dc) w.now tok (simp good at k),
      )
    ]
