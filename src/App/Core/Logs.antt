-- ===== src/App/Core/Logs.antt =====
-- The log that `logf` of pkg/appcore/appcore.go caps.
use claimward_vpn_client.Common.{
  ℕ, zero, suc, ◌-◌, ◌≤◌, ◌+++◌, ◌≡◌, refl, String, List, [], ◌∷◌, ◌++◌, ltb, length, length-append,
  Bool-cases, inl, inr, arith,
}
use claimward_vpn_client.App.Core.{World, Core, logf, drop_first, max_log}

length-drop_first : (n : ℕ) (xs : List String) → length (drop_first n xs) ≡ length xs - n
length-drop_first zero xs = omega arith
length-drop_first (suc n) [] = omega arith
length-drop_first (suc n) (x ∷ xs) = omega (arith, length-drop_first n xs)

drop_first-append :
    (n : ℕ) (xs ys : List String) → n ≤ length xs → drop_first n (xs ++ ys) ≡ drop_first n xs ++ ys
drop_first-append zero xs ys h = refl
drop_first-append (suc n) [] ys h = absurd (omega arith)
drop_first-append (suc n) (x ∷ xs) ys h = drop_first-append n xs ys (omega arith)

-- However long the log was, it has at most 200 lines after a line is added, and the line is its last.
pub logf_lem :
    (w : World) (c : Core) (line : String)
    → (length (logf w c line).log ≤ max_log)
      × ((front : List String) × ((logf w c line).log ≡ front ++ (w.clock +++ "  " +++ line) ∷ []))
unfolding logf
logf_lem w c line =
    let new = (w.clock +++ "  " +++ line) ∷ [] in
    elim (Bool-cases (ltb max_log (length (c.log ++ new)))) [
      | inl long ↦
          let n = length (c.log ++ new) - max_log in
          rw long (
            omega (arith, length-drop_first n (c.log ++ new)),
            (
              drop_first n c.log,
              drop_first-append n c.log new (omega (arith, length-append c.log new)),
            ),
          )
      | inr short ↦ rw short (ground arith, (c.log, refl))
    ]
