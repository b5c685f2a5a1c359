-- ===== src/Wgtun/Commands.antt =====
-- `run`, and the loops over the routes, of pkg/wgtun/wgtun_darwin.go and wgtun_other.go.
use claimward_vpn_client.Common.{
  ◌+++◌, trim_space, String, List, [], ◌∷◌, Option, none, some, true, false, ◌≡◌, refl, ap, ◌∙◌,
  sym, ◌↔◌, inl, inr, Option-cases, ◌⊎◌, arith,
}
use claimward_vpn_client.Errors.{Error, Result, plain, error_text}
use claimward_vpn_client.Wgtun.Addresses.{Addr, Prefix}
use claimward_vpn_client.Wgtun.Routes.{Table, Changed, Platform, add_new, has}
use claimward_vpn_client.Wgtun.Routes.Entries.{Gives, Lawful, add_new-new, add_new-failed}
use claimward_vpn_client.Wgtun.Routes.Update.{add_new_lem}

-- What a command leaves and says.
pub record Ran : Type 0 where
  pub table : Table
  pub output : String
  pub error : Option Error

-- `net.ParseCIDR` gives an address and the network that it lies in.
pub record Cidr : Type 0 where
  pub ip : Addr
  pub net : Prefix

-- The commands of the system, as they change the interface's routes, and Go's package `net`.
pub record System : Type 0 where
  pub exec : Table → String → List String → Ran
  pub parse_cidr : String → Result Cidr
  pub ip_text : Addr → String
  pub net_text : Prefix → String

-- `run`.
unfoldable pub run : System → Table → String → List String → Ran
run sys t name args = record (sys.exec t name args) {
  output = trim_space (sys.exec t name args).output;
}

-- The error of a command that failed.
abbrev pub reported : String → Ran → Changed
reported what r = record {
  table = r.table;
  error = elim r.error [
    | none ↦ none
    | some e ↦ some (plain (what +++ ": " +++ error_text e +++ ": " +++ r.output))
  ];
}

-- What follows a change, unless it is an error.
infixl 5 ◌then_on◌
abbrev pub ◌then_on◌ : Changed → (Table → Changed) → Changed
c then_on next = elim c.error [ none ↦ next c.table | some e ↦ c ]

-- The loop that adds the configuration's routes, and the one that deletes them.
unfoldable pub add_all : Platform → Table → List String → Changed
add_all pf t [] = record { table = t; error = none }
add_all pf t (a ∷ rest) = elim (pf.route_add t a).error [
  | none ↦ add_all pf (pf.route_add t a).table rest
  | some e ↦ pf.route_add t a
]

unfoldable pub del_all : Platform → Table → List String → Table
del_all pf t [] = t
del_all pf t (a ∷ rest) = del_all pf (pf.route_del t a) rest

not_had : (a : String) → has [] a ≡ false
unfolding has
not_had a = refl

pub add_all-add_new :
    (pf : Platform) (t : Table) (ss : List String) → add_all pf t ss ≡ add_new pf [] t ss
unfolding add_all
add_all-add_new pf t [] = unfold add_new in refl
add_all-add_new pf t (a ∷ rest) = elim (Option-cases (pf.route_add t a).error) [
  | inl z ↦
      rw (z, add_all)
        (add_all-add_new pf (pf.route_add t a).table rest
          ∙ sym (add_new-new pf [] t a rest (not_had a) z))
  | inr (e, z) ↦ rw (z, add_all) (sym (add_new-failed pf [] t a rest e (not_had a) z))
]

pub add_all_lem :
    (pf : Platform) (dst : String → Option Prefix)
    → Lawful pf dst
    → (t : Table) (ss : List String) → (add_all pf t ss).error ≡ none
    → (r : Prefix) → ((add_all pf t ss).table r ≡ true) ↔ (Gives dst [] ss r ⊎ (t r ≡ true))
add_all_lem pf dst law t ss h r =
    let same = add_all-add_new pf t ss in
    rw same
      (add_new_lem pf dst law.add_lem [] t ss (ap (λ (c : Changed). c.error) (sym same) ∙ h) r)

-- Deleting every entry leaves the routes that none of them gives.
pub del_all_lem :
    (pf : Platform) (dst : String → Option Prefix)
    → Lawful pf dst
    → (t : Table) (ss : List String) (r : Prefix)
    → (del_all pf t ss r ≡ true) ↔ ((t r ≡ true) × (¬ (Gives dst [] ss r)))
unfolding del_all has
del_all_lem pf dst law t [] r = (λ h. (h, λ g. g), λ h. h.0)
del_all_lem pf dst law t (a ∷ rest) r =
    let ih = del_all_lem pf dst law (pf.route_del t a) rest r in
    let d = law.del_lem t a r in ground (arith, ih, d)

pub reported-none : (what : String) (r : Ran) → (reported what r).error ≡ none → r.error ≡ none
reported-none what r h = elim (Option-cases r.error) [
  | inl z ↦ z
  | inr (e, z) ↦ let h' = simp z at h in cc
]
