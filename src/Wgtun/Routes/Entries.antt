-- ===== src/Wgtun/Routes/Entries.antt =====
-- Entries of a route list and the routes that they give, for `UpdateRoutes` of pkg/wgtun/wgtun.go.
use claimward_vpn_client.Common.{
  ◌≡◌, ◌≢◌, refl, sym, ap, ◌∙◌, ◌↔◌, ◌⊎◌, inl, inr, eq_iff, String, List, [], ◌∷◌, Option, none,
  some, true, false, In, arith,
}
use claimward_vpn_client.Errors.{Error}
use claimward_vpn_client.Wgtun.Addresses.{Prefix}
use claimward_vpn_client.Wgtun.Routes.{Table, Changed, Platform, has, add_new}

pub has_iff : (ss : List String) (a : String) → (has ss a ≡ true) ↔ In a ss
unfolding has
has_iff [] a = (λ h. cc, λ h. absurd h)
has_iff (s ∷ ss) a = ground (arith, eq_iff a s, has_iff ss a)

-- Some entry that is not one of `skipped` gives the route.
abbrev pub Gives : (String → Option Prefix) → List String → List String → Prefix → Type 0
Gives dst skipped [] r = ⊥
Gives dst skipped (a ∷ rest) r =
    ((has skipped a ≡ false) × (dst a ≡ some r)) ⊎ Gives dst skipped rest r

pub Gives-iff :
    (dst : String → Option Prefix) (skipped ss : List String) (r : Prefix)
    → Gives dst skipped ss r ↔ ((a : String) × In a ss × (has skipped a ≡ false) × (dst a ≡ some r))
Gives-iff dst skipped [] r = (λ h. absurd h, λ h. h.1)
Gives-iff dst skipped (s ∷ ss) r = (
  λ h. elim h [
    | inl e ↦ (s, inl refl, e.0, e.1)
    | inr g ↦ let (a, m, n, d) = (Gives-iff dst skipped ss r).0 g in (a, inr m, n, d)
  ],
  λ h. elim h.1 [
    | inl e ↦ inl (ap (λ b. has skipped b) (sym e) ∙ h.2, ap dst (sym e) ∙ h.3)
    | inr m ↦ inr ((Gives-iff dst skipped ss r).1 (h.0, m, h.2, h.3))
  ],
)

-- An entry that was added without an error adds its route, if it names one, and nothing else.
abbrev pub Added : (String → Option Prefix) → Table → String → Changed → Type 0
Added dst t a c =
    c.error ≡ none → (r : Prefix) → (c.table r ≡ true) ↔ ((dst a ≡ some r) ⊎ (t r ≡ true))

abbrev pub Deleted : (String → Option Prefix) → Table → String → Table → Type 0
Deleted dst t a u = (r : Prefix) → (u r ≡ true) ↔ ((t r ≡ true) × (dst a ≢ some r))

-- An entry leaves every route that it does not name, also where it is an error.
abbrev pub Others : (String → Option Prefix) → Table → String → Table → Type 0
Others dst t a u = (r : Prefix) → dst a ≢ some r → u r ≡ t r

-- What a platform owes for its reading `dst` of an entry, where its deletions work. The source discards
-- their errors.
pub record Lawful (pf : Platform) (dst : String → Option Prefix) : Type 0 where
  pub add_lem : (t : Table) (a : String) → Added dst t a (pf.route_add t a)
  pub add_others : (t : Table) (a : String) → Others dst t a (pf.route_add t a).table
  pub del_lem : (t : Table) (a : String) → Deleted dst t a (pf.route_del t a)

-- What it owes where they may fail: a deletion adds no route, and leaves every one that its entry does
-- not name.
pub record Careful (pf : Platform) (dst : String → Option Prefix) : Type 0 where
  pub adds_lem : (t : Table) (a : String) → Added dst t a (pf.route_add t a)
  pub del_within : (t : Table) (a : String) (r : Prefix) → pf.route_del t a r ≡ true → t r ≡ true
  pub del_others : (t : Table) (a : String) → Others dst t a (pf.route_del t a)

-- Some deletion of an entry that gives the route leaves it.
abbrev pub Sticks : Platform → (String → Option Prefix) → Prefix → Type 0
Sticks pf dst r = (a : String) × (t : Table) × (dst a ≡ some r) × (pf.route_del t a r ≡ true)

pub Lawful-Careful : (pf : Platform) (dst : String → Option Prefix) → Lawful pf dst → Careful pf dst
Lawful-Careful pf dst law = record {
  adds_lem = law.add_lem;
  del_within = λ t a r h. ((law.del_lem t a r).0 h).0;
  del_others = λ t a r ne. let d = law.del_lem t a r in ground (arith, d, ne);
}

-- One round of the loop over the new entries.
pub add_new-old :
    (pf : Platform) (old : List String) (t : Table) (a : String) (rest : List String)
    → has old a ≡ true
    → add_new pf old t (a ∷ rest) ≡ add_new pf old t rest
unfolding add_new
add_new-old pf old t a rest o = ground arith

pub add_new-new :
    (pf : Platform) (old : List String) (t : Table) (a : String) (rest : List String)
    → has old a ≡ false
    → (pf.route_add t a).error ≡ none
    → add_new pf old t (a ∷ rest) ≡ add_new pf old (pf.route_add t a).table rest
unfolding add_new
add_new-new pf old t a rest n z = ground arith

pub add_new-failed :
    (pf : Platform) (old : List String) (t : Table) (a : String) (rest : List String) (e : Error)
    → has old a ≡ false
    → (pf.route_add t a).error ≡ some e
    → add_new pf old t (a ∷ rest) ≡ pf.route_add t a
unfolding add_new
add_new-failed pf old t a rest e n z = ground arith
