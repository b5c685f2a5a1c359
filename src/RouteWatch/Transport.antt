-- ===== src/RouteWatch/Transport.antt =====
-- How the person's bearer travels when pkg/routeclient/routeclient.go watches for routes.
use claimward_vpn_client.Common.{
  ◌≤◌, ◌<◌, ◌+◌, ◌≡◌, ◌↔◌, refl, sym, ◌∙◌, ◌⊎◌, inl, inr, ◌+++◌, quote, String, List, [], ◌∷◌,
  Option, none, some, true, false, Bool-cases, eq_iff, arith, subst, some-injective,
}
use claimward_vpn_client.Errors.{Error, Result, ok, err, wrap, ◌>>=◌}
use claimward_vpn_client.Wgtun.Addresses.{Addr, v4, v6, unmap}
use claimward_vpn_client.RouteWatch.{
  Update, Credentials, plaintext, tls, Sent, Grpc, Watched, is_loopback, loopback_ip, is_local,
  for_host, transport, receive, streamed, dialled, with_credentials, watch,
}

-- 127.0.0.0/8, ::1, or ::ffff:127.0.0.0/104.
abbrev pub Loopback : Addr → Type 0
Loopback (v4 n) = (2130706432 ≤ n) × (n < 2147483648)
Loopback (v6 n) =
    (n ≡ 1) ⊎ ((281470681743360 + 2130706432 ≤ n) × (n < 281470681743360 + 2147483648))

-- A name or an address of the host itself.
abbrev pub IsHere : Grpc → String → Type 0
IsHere g host = (host ≡ "localhost") ⊎ ((a : Addr) × (g.parse_ip host ≡ some a) × Loopback a)

-- TLS for the endpoint's host, of a version from 1.2, or plaintext to the host itself.
abbrev pub IsPrivate : Grpc → String → Credentials → Type 0
IsPrivate g endpoint c =
    (host : String) × (g.split_host_port endpoint ≡ ok host)
    × ((IsHere g host × (c ≡ plaintext)) ⊎ ((¬ (IsHere g host)) × (c ≡ tls host "1.2")))

is_loopback_iff : (a : Addr) → (is_loopback (unmap a) ≡ true) ↔ Loopback a
is_loopback_iff (v4 n) = (λ h. (ground arith, ground arith), λ h. ground arith)
is_loopback_iff (v6 n) = (λ h. ground arith, λ h. ground arith)

loopback_ip_iff :
    (o : Option Addr) → (loopback_ip o ≡ true) ↔ ((a : Addr) × (o ≡ some a) × Loopback a)
loopback_ip_iff none = (λ h. cc, λ (a, e, l). cc)
loopback_ip_iff (some a) = (
  λ h. (a, refl, (is_loopback_iff a).0 h),
  λ (b, e, l). (is_loopback_iff a).1 (subst Loopback (sym (some-injective _ _ e)) l),
)

is_local_iff : (g : Grpc) (host : String) → (is_local g host ≡ true) ↔ IsHere g host
is_local_iff g host = elim (Bool-cases (loopback_ip (g.parse_ip host))) [
  | inl l ↦ rw l (λ h. inr ((loopback_ip_iff (g.parse_ip host)).0 l), λ h. refl)
  | inr r ↦ rw r (
    λ h. inl ((eq_iff host "localhost").0 h),
    λ h. elim h [
      | inl e ↦ (eq_iff host "localhost").1 e
      | inr at ↦
          let known = (loopback_ip_iff (g.parse_ip host)).1 at in
          let clash : true ≡ false = sym known ∙ r in absurd (cc)
    ],
  )
]

-- The credentials for a host, against where it is.
for_host_lem :
    (g : Grpc) (host : String)
    → (IsHere g host × (for_host g host ≡ plaintext))
      ⊎ ((¬ (IsHere g host)) × (for_host g host ≡ tls host "1.2"))
for_host_lem g host = elim (Bool-cases (is_local g host)) [
  | inl l ↦ inl ((is_local_iff g host).0 l, rw l refl)
  | inr r ↦
      inr
        (λ here. let clash : true ≡ false = sym ((is_local_iff g host).1 here) ∙ r in cc, rw r refl)
]

module _ {S : Type 0} (g : Grpc) (on_update : S → Update → S) (endpoint bearer key : String)
    (s : S) where
  abbrev message : Credentials → Sent
  message c = record {
    endpoint = endpoint;
    credentials = c;
    authorization = "Bearer " +++ bearer;
    public_key = key;
  }

  -- What may have been sent: nothing, with an error and without an effect, or the bearer once, over
  -- such credentials.
  abbrev pub Discreet : Watched S → Type 0
  Discreet w =
      ((w.sent ≡ []) × (w.state ≡ s) × ((e : Error) × (w.ended ≡ some e)))
      ⊎ ((c : Credentials) × IsPrivate g endpoint c × (w.sent ≡ message c ∷ []))

  receive_sent :
      (ms : List Sent) (t : S) (stream : List (Result Update))
      → (receive g on_update ms t stream).sent ≡ ms
  unfolding receive
  receive_sent ms t [] = refl
  receive_sent ms t (err e ∷ rest) = refl
  receive_sent ms t (ok u ∷ rest) = receive_sent ms (on_update t u) rest

  module _ (c : Credentials) (private : IsPrivate g endpoint c)
      (stream : List (Result Update)) where
    streamed-Discreet :
        (r : Result (Unit {0})) → Discreet (streamed g on_update (message c) s stream r)
    streamed-Discreet (err e) = inr (c, private, refl)
    streamed-Discreet (ok u) = inr (c, private, receive_sent (message c ∷ []) s stream)

    dialled-Discreet :
        (r : Result (Unit {0})) → Discreet (dialled g on_update (message c) s stream r)
    dialled-Discreet (err e) = inl (refl, refl, (_, refl))
    dialled-Discreet (ok u) = streamed-Discreet (g.open_stream (message c))

  with_host-Discreet :
      (stream : List (Result Update)) (r : Result String)
      → g.split_host_port endpoint ≡ r
      → Discreet (
          with_credentials g on_update endpoint bearer key s stream
            (do host ← wrap ("gRPC endpoint " +++ quote endpoint) r; ok (for_host g host)))
  with_host-Discreet stream (err e) f = inl (refl, refl, (_, refl))
  with_host-Discreet stream (ok host) f =
      dialled-Discreet (for_host g host) (host, f, for_host_lem g host) stream
        (g.new_client endpoint (for_host g host))

  -- The bearer is sent at most once, under TLS 1.2 or later for the endpoint's host, and in plaintext
  -- exactly if that host is named "localhost" or is a loopback address, also one written as an IPv6
  -- address; a watch that sent nothing ended with an error and had no effect.
  pub watch-Discreet :
      (stream : List (Result Update)) → Discreet (watch g on_update endpoint bearer key s stream)
  unfolding watch transport
  watch-Discreet stream = with_host-Discreet stream (g.split_host_port endpoint) refl
