-- ===== src/Wgtun/Windows/Laws.antt =====
-- What the routes of pkg/wgtun/wgtun_windows.go promise, where `winipcfg` does what it documents.
use claimward_vpn_client.Common.{
  some-injective, ℕ, ◌≡◌, ◌≢◌, refl, ap, sym, ◌∙◌, ◌↔◌, ◌⊎◌, inl, inr, Option, none, some, Bool,
  true, false,
}
use claimward_vpn_client.Errors.{ok}
use claimward_vpn_client.Wgtun.Addresses.{Prefix, Syntax}
use claimward_vpn_client.Wgtun.Plan.{parse_route}
use claimward_vpn_client.Wgtun.Routes.{Table}
use claimward_vpn_client.Wgtun.Routes.Entries.{Lawful}
use claimward_vpn_client.Wgtun.Windows.{
  Added, done, already_exists, refused, System, luid, unspecified, add_error, add_parsed,
  del_parsed, route_add, route_del, platform,
}

abbrev added : System → ℕ → Table → Prefix → Table
added sys n t r = sys.add_route n t r (unspecified r)

abbrev result : System → ℕ → Table → Prefix → Added
result sys n t r = sys.add_result n t r (unspecified r)

abbrev pub Takes : Table → Prefix → Table → Added → Type 0
Takes t r u (refused e) = (s : Prefix) → r ≢ s → u s ≡ t s
Takes t r u done = (s : Prefix) → (u s ≡ true) ↔ ((r ≡ s) ⊎ (t s ≡ true))
Takes t r u (already_exists e) = (t r ≡ true) × ((s : Prefix) → u s ≡ t s)

abbrev pub Loses : Table → Prefix → Table → Type 0
Loses t r u = (s : Prefix) → (u s ≡ true) ↔ ((t s ≡ true) × (r ≢ s))

-- On the adapter `n`, `AddRoute` adds the route, or says that it is there, or is an error that
-- leaves the others; `DeleteRoute` deletes the route.
pub record RouteCalls (sys : System) (n : ℕ) : Type 0 where
  pub is_native : sys.native ≡ some n
  pub add : (t : Table) (r : Prefix) → Takes t r (added sys n t r) (result sys n t r)
  pub del : (t : Table) (r : Prefix) → Loses t r (sys.delete_route n t r (unspecified r))

add_error-none :
    (sys : System) (t u : Table) (r : Prefix) (o : Added)
    → Takes t r u o
    → add_error sys r o ≡ none
    → (s : Prefix) → (u s ≡ true) ↔ ((some r ≡ some s) ⊎ (t s ≡ true))
add_error-none sys t u r done h z s = (
  λ m. elim ((h s).0 m) [ inl e ↦ inl (ap some e) | inr k ↦ inr k ],
  λ m. (h s).1 (elim m [ inl e ↦ inl (some-injective r s e) | inr k ↦ inr k ]),
)
add_error-none sys t u r (already_exists e) h z s = (
  λ m. inr (rw (h.1 s) at m),
  λ m. rw (h.1 s) (elim m [ inl e ↦ ap t (sym (some-injective r s e)) ∙ h.0 | inr k ↦ k ]),
)
add_error-none sys t u r (refused e) h z s = cc

add_others :
    (t u : Table) (r : Prefix) (o : Added)
    → Takes t r u o
    → (s : Prefix) → some r ≢ some s
    → u s ≡ t s
add_others t u r done h s ne = same (u s) (t s) (h s)
  where
    same : (x y : Bool) → ((x ≡ true) ↔ ((r ≡ s) ⊎ (y ≡ true))) → x ≡ y
    same true true f = refl
    same false false f = refl
    same true false f = absurd (ne (elim (f.0 refl) [ inl e ↦ ap some e | inr e ↦ cc ]))
    same false true f = f.1 (inr refl)
add_others t u r (already_exists e) h s ne = h.1 s
add_others t u r (refused e) h s ne = h s (λ x. ne (ap some x))

module _ (sys : System) (n : ℕ) (calls : RouteCalls sys n) where
  add_parsed-Added :
      (t : Table) (o : Option Prefix)
      → (add_parsed sys t o (ok n)).error ≡ none
      → (s : Prefix) → ((add_parsed sys t o (ok n)).table s ≡ true) ↔ ((o ≡ some s) ⊎ (t s ≡ true))
  add_parsed-Added t none z s = (λ m. inr m, λ m. elim m [ inl e ↦ cc | inr k ↦ k ])
  add_parsed-Added t (some r) z s =
      add_error-none sys t (added sys n t r) r (result sys n t r) (calls.add t r) z s

  add_parsed-others :
      (t : Table) (o : Option Prefix) (s : Prefix)
      → o ≢ some s
      → (add_parsed sys t o (ok n)).table s ≡ t s
  add_parsed-others t none s ne = refl
  add_parsed-others t (some r) s ne =
      add_others t (added sys n t r) r (result sys n t r) (calls.add t r) s ne

  del_parsed-Deleted :
      (t : Table) (o : Option Prefix) (s : Prefix)
      → (del_parsed sys t o (ok n) s ≡ true) ↔ ((t s ≡ true) × (o ≢ some s))
  del_parsed-Deleted t none s = (λ m. (m, λ x. cc), λ m. m.0)
  del_parsed-Deleted t (some r) s =
      let d = calls.del t r s in
      (
        λ m. ((d.0 m).0, λ e. (d.0 m).1 (some-injective r s e)),
        λ m. d.1 (m.0, λ e. m.1 (ap some e)),
      )

-- With a `winipcfg` that adds and deletes the adapter's routes as documented, `routeAdd` and
-- `routeDel` of Windows are lawful for the route that `parseRoute` reads in an entry; a route that is
-- there already counts as added.
pub windows-Lawful :
    (syn : Syntax) (sys : System) (n : ℕ)
    → RouteCalls sys n
    → Lawful (platform syn sys) (parse_route syn)
unfolding route_add route_del luid
windows-Lawful syn sys n calls = rw calls.is_native (record {
  add_lem = λ t a. add_parsed-Added sys n calls t (parse_route syn a);
  add_others = λ t a. add_parsed-others sys n calls t (parse_route syn a);
  del_lem = λ t a. del_parsed-Deleted sys n calls t (parse_route syn a);
})
