-- ===== src/Socket/Windows/Opened.antt =====
-- What `Listen` of pkg/helper/listen_windows.go leaves open, and what it has checked.
use claimward_vpn_client.Common.{◌+++◌, ◌≡◌, refl, sym, ap, subst, String, List, [], ◌∷◌}
use claimward_vpn_client.Errors.{Result, ok, err, wrap, ◌>>=◌}
use claimward_vpn_client.Access.{Ace, dir_sddl, socket_sddl}
use claimward_vpn_client.Socket.Windows.{
  Call, make_parents, create_dir, set_security, remove_file, bind, close_listener, Win32, Found,
  there, missing, failed, Created, already_exists, refused, Done, ◌then_on◌, behind, socket_group,
  dir_created, readied, parents_made, created_unless, create_secured, both_parts, security_set,
  apply_sddl, refuse_reparse_point, check_path, checked, file_removed, remove_step, bound,
  bind_step, closed_at, secured_socket, listen_as, grouped, listen,
}

abbrev without_last : List String → List String
without_last [] = []
without_last (l ∷ ls) = ls

-- The listeners that are open after a history.
abbrev pub listeners : List Call → List String
listeners [] = []
listeners (bind path ∷ made) = path ∷ listeners made
listeners (close_listener path ∷ made) = without_last (listeners made)
listeners (make_parents dir ∷ made) = listeners made
listeners (create_dir dir sddl ∷ made) = listeners made
listeners (set_security path owner dacl ∷ made) = listeners made
listeners (remove_file path ∷ made) = listeners made

-- What `Listen` leaves open: its listener without an error, and with one what was open before.
abbrev pub Balanced : List String → String → List Call → Result (Unit {0}) → Type 0
Balanced open_before path made (ok u) = listeners made ≡ path ∷ open_before
Balanced open_before path made (err e) = listeners made ≡ open_before

module _ (l : List String) where
  abbrev Keeps : Done → Type 0
  Keeps d = listeners d.made ≡ l

  then-Keeps :
      (d : Done) (next : List Call → Done)
      → Keeps d
      → ((m : List Call) → listeners m ≡ l → Keeps (next m))
      → Keeps (d then_on next)
  unfolding ◌then_on◌
  then-Keeps d next k h = at d.result
    where
      at : (r : Result (Unit {0})) → Keeps (elim r [ ok u ↦ next d.made | err e ↦ d ])
      at (ok u) = h d.made k
      at (err e) = k

  create_secured-Keeps :
      (w : Win32) (dir sddl : String) (m : List Call)
      → listeners m ≡ l
      → Keeps (create_secured w dir sddl m)
  unfolding create_secured
  create_secured-Keeps w dir sddl m k = found (w.lstat m dir)
    where
      made_dir :
          (o : Created)
          → Keeps (dir_created dir (create_dir dir sddl ∷ make_parents (w.parent dir) ∷ m) o)
      made_dir Created.done = k
      made_dir (already_exists e) = k
      made_dir (refused e) = k

      ready :
          (r : Result (Unit {0})) → Keeps (readied w dir sddl (make_parents (w.parent dir) ∷ m) r)
      ready (err e) = k
      ready (ok u) = made_dir (w.create_dir (make_parents (w.parent dir) ∷ m) dir sddl)

      parents :
          (r : Result (Unit {0}))
          → Keeps (parents_made w dir sddl (make_parents (w.parent dir) ∷ m) r)
      parents (err e) = k
      parents (ok u) = ready (do sd ← w.parse_sddl sddl; w.utf16 dir)

      found : (o : Found) → Keeps (created_unless w dir sddl m o)
      found there = k
      found (failed e) = k
      found (missing e) = parents (w.make_parents m (w.parent dir))

  apply_sddl-Keeps :
      (w : Win32) (path sddl : String) (m : List Call)
      → listeners m ≡ l
      → Keeps (apply_sddl w path sddl m)
  unfolding apply_sddl
  apply_sddl-Keeps w path sddl m k = parts (do sd ← w.parse_sddl sddl; both_parts sd)
    where
      parts : (r : Result (String × List Ace)) → Keeps (security_set w path m r)
      parts (err e) = k
      parts (ok (owner, dacl)) = k

  remove_step-Keeps :
      (w : Win32) (path : String) (m : List Call) → listeners m ≡ l → Keeps (remove_step w path m)
  remove_step-Keeps w path m k = gone (w.remove_file m path)
    where
      gone : (o : Found) → Keeps (file_removed (remove_file path ∷ m) o)
      gone there = k
      gone (missing e) = k
      gone (failed e) = k

module _ (l : List String) (path : String) where
  abbrev Fits : Done → Type 0
  Fits d = Balanced l path d.made d.result

  bind-Fits : (w : Win32) (d : Done) → Keeps l d → Fits (d then_on λ m. bind_step w path m)
  unfolding ◌then_on◌
  bind-Fits w d k = at d.result refl
    where
      opened : (r : Result (Unit {0})) → Fits (bound path d.made r)
      opened (err e) = k
      opened (ok u) = ap (λ ls. path ∷ ls) k

      at :
          (r : Result (Unit {0}))
          → d.result ≡ r
          → Fits (elim r [ ok u ↦ bind_step w path d.made | err e ↦ d ])
      at (ok u) f = opened (w.bind d.made path)
      at (err e) f = subst (λ r. Balanced l path d.made r) (sym f) k

  secured-Fits :
      (w : Win32) (sid : String) (d : Done)
      → Fits d
      → Fits (d then_on λ m. secured_socket w path sid m)
  unfolding ◌then_on◌
  secured-Fits w sid d fits = at d.result refl
    where
      shut :
          (m : List Call) (r : Result (Unit {0}))
          → listeners m ≡ path ∷ l
          → Fits (closed_at path m r)
      shut m (ok u) k = k
      shut m (err e) k = rw k refl

      at :
          (r : Result (Unit {0}))
          → d.result ≡ r
          → Fits (elim r [ ok u ↦ secured_socket w path sid d.made | err e ↦ d ])
      at (err e) f = fits
      at (ok u) f =
          let k = subst (λ r. Balanced l path d.made r) f fits in
          let step = apply_sddl w path (socket_sddl sid) d.made in
          shut step.made (wrap ("secure " +++ path) step.result)
            (apply_sddl-Keeps (path ∷ l) w path (socket_sddl sid) d.made k)

-- Without an error `Listen` leaves its listener open beside what was open before it, and with any error,
-- at whatever step, exactly what was open before.
pub listen-Balanced :
    (w : Win32) (path group : String) (made : List Call)
    → Balanced
        (listeners made)
        path
        (listen w path group made).made
        (listen w path group made).result
unfolding listen listen_as
listen-Balanced w path group made = at (socket_group w group)
  where
    as_group : (sid : String) → Fits (listeners made) path (listen_as w path sid made)
    as_group sid =
        let l = listeners made in
        let dir = w.parent path in
        let one = create_secured w dir (dir_sddl sid) made in
        let two = one then_on (λ m. checked (refuse_reparse_point w m dir) m) in
        let three =
          two then_on (λ m. behind ("secure " +++ dir) (apply_sddl w dir (dir_sddl sid) m)) in
        let four = three then_on (λ m. checked (wrap dir (check_path w m dir)) m) in
        let five = four then_on (λ m. remove_step w path m) in
        let k1 = create_secured-Keeps l w dir (dir_sddl sid) made refl in
        let k2 = then-Keeps l one (λ m. checked (refuse_reparse_point w m dir) m) k1 (λ m k. k) in
        let k3 =
          then-Keeps l two (λ m. behind ("secure " +++ dir) (apply_sddl w dir (dir_sddl sid) m)) k2
            (apply_sddl-Keeps l w dir (dir_sddl sid)) in
        let k4 =
          then-Keeps l three (λ m. checked (wrap dir (check_path w m dir)) m) k3 (λ m k. k) in
        let k5 = then-Keeps l four (λ m. remove_step w path m) k4 (remove_step-Keeps l w path) in
        secured-Fits l path w sid (five then_on λ m. bind_step w path m)
          (bind-Fits l path w five k5)

    at : (r : Result String) → Fits (listeners made) path (grouped w path made r)
    at (err e) = refl
    at (ok sid) = as_group sid
