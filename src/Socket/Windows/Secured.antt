-- ===== src/Socket/Windows/Secured.antt =====
-- What `Listen` of pkg/helper/listen_windows.go has done and checked when it reports no error.
use claimward_vpn_client.Common.{
  ◌+++◌, ◌≡◌, refl, ap, subst, ◌∙◌, inl, inr, String, List, ◌∷◌, arith,
}
use claimward_vpn_client.Errors.{Result, ok, err, wrap, ◌>>=◌, Result-cases}
use claimward_vpn_client.Access.{Ace, dir_sddl, socket_sddl}
use claimward_vpn_client.Socket.Windows.{
  Call, set_security, remove_file, bind, Win32, Descriptor, Found, there, missing, failed, Done,
  ◌then_on◌, behind, socket_group, create_secured, both_parts, security_set, apply_sddl,
  refuse_reparse_point, check_path, checked, file_removed, remove_step, bound, bind_step, closed_at,
  secured_socket, listen_as, grouped, listen,
}
use claimward_vpn_client.Socket.Windows.Owners.{IsOwn, check_path_iff}

-- A text that reads as an owner and a DACL.
abbrev pub Reads : Win32 → String → String → List Ace → Type 0
Reads w sddl owner dacl = (do sd ← w.parse_sddl sddl; both_parts sd) ≡ ok (owner, dacl)

pub record Secured (w : Win32) (path group : String) (final : List Call) : Type 0 where
  pub sid : String
  pub before : List Call
  pub owner : String
  pub dacl : List Ace
  pub descriptor : Descriptor
  pub socket_owner : String
  pub socket_dacl : List Ace
  pub group_lem : socket_group w group ≡ ok sid
  pub plain_dir : refuse_reparse_point w before (w.parent path) ≡ ok tt
  pub dir_lem : Reads w (dir_sddl sid) owner dacl
  pub set_lem : w.set_security before (w.parent path) owner dacl ≡ ok tt
  pub read_back :
      w.security_of (set_security (w.parent path) owner dacl ∷ before) (w.parent path)
      ≡ ok descriptor
  pub is_own : IsOwn descriptor
  pub socket_lem : Reads w (socket_sddl sid) socket_owner socket_dacl
  pub history :
      final
      ≡ set_security path socket_owner socket_dacl
        ∷ bind path
        ∷ remove_file path
        ∷ set_security (w.parent path) owner dacl
        ∷ before

-- A step that met no error handed on to the next.
then_on_ok :
    (d : Done) (next : List Call → Done)
    → (d then_on next).result ≡ ok tt
    → (d.result ≡ ok tt)
      × ((next d.made).result ≡ ok tt)
      × ((d then_on next).made ≡ (next d.made).made)
unfolding ◌then_on◌
then_on_ok d next h = elim (Result-cases d.result) [
  | inl (u, z) ↦ ground (arith, z)
  | inr (e, z) ↦ absurd (ground arith)
]

wrap_ok : (what : String) (r : Result (Unit {0})) → wrap what r ≡ ok tt → r ≡ ok tt
wrap_ok what (ok u) h = h
wrap_ok what (err e) h = cc

abbrev Applied : Win32 → String → String → List Call → Done → Type 0
Applied w path sddl m d =
    (owner : String) × (dacl : List Ace) × Reads w sddl owner dacl
    × (w.set_security m path owner dacl ≡ ok tt)
    × (d.made ≡ set_security path owner dacl ∷ m)

apply_sddl_ok :
    (w : Win32) (path sddl : String) (m : List Call)
    → (apply_sddl w path sddl m).result ≡ ok tt
    → Applied w path sddl m (apply_sddl w path sddl m)
unfolding apply_sddl
apply_sddl_ok w path sddl m = at (do sd ← w.parse_sddl sddl; both_parts sd) refl
  where
    at :
        (r : Result (String × List Ace))
        → (do sd ← w.parse_sddl sddl; both_parts sd) ≡ r
        → (security_set w path m r).result ≡ ok tt
        → Applied w path sddl m (security_set w path m r)
    at (err e) f h = cc
    at (ok (owner, dacl)) f h = (owner, dacl, f, h, refl)

remove_step_lem :
    (w : Win32) (path : String) (m : List Call) → (remove_step w path m).made ≡ remove_file path ∷ m
remove_step_lem w path m = gone (w.remove_file m path)
  where
    gone : (o : Found) → (file_removed (remove_file path ∷ m) o).made ≡ remove_file path ∷ m
    gone there = refl
    gone (missing e) = refl
    gone (failed e) = refl

bound_ok :
    (path : String) (m : List Call) (r : Result (Unit {0}))
    → (bound path m r).result ≡ ok tt
    → (bound path m r).made ≡ bind path ∷ m
bound_ok path m (ok u) h = refl
bound_ok path m (err e) h = cc

closed_ok :
    (path : String) (m : List Call) (r : Result (Unit {0}))
    → (closed_at path m r).result ≡ ok tt
    → (r ≡ ok tt) × ((closed_at path m r).made ≡ m)
closed_ok path m (ok u) h = (refl, refl)
closed_ok path m (err e) h = cc

module _ (w : Win32) (path group sid : String) (made : List Call) where
  abbrev dir : String
  dir = w.parent path

  abbrev created : Done
  created = create_secured w dir (dir_sddl sid) made

  abbrev unlinked : Done
  unlinked = created then_on (λ m. checked (refuse_reparse_point w m dir) m)

  abbrev applied : Done
  applied = unlinked then_on (λ m. behind ("secure " +++ dir) (apply_sddl w dir (dir_sddl sid) m))

  abbrev accepted : Done
  accepted = applied then_on (λ m. checked (wrap dir (check_path w m dir)) m)

  abbrev emptied : Done
  emptied = accepted then_on (λ m. remove_step w path m)

  abbrev opened : Done
  opened = emptied then_on (λ m. bind_step w path m)

  listen_as-Secured :
      socket_group w group ≡ ok sid
      → (listen_as w path sid made).result ≡ ok tt
      → Secured w path group (listen_as w path sid made).made
  unfolding listen_as
  listen_as-Secured grouped h =
      let (h6, last, e7) = then_on_ok opened (λ m. secured_socket w path sid m) h in
      let (h5, bind_fine, e6) = then_on_ok emptied (λ m. bind_step w path m) h6 in
      let (h4, remove_fine, e5) = then_on_ok accepted (λ m. remove_step w path m) h5 in
      let (h3, check_fine, e4) =
        then_on_ok applied (λ m. checked (wrap dir (check_path w m dir)) m) h4 in
      let (h2, apply_fine, e3) =
        then_on_ok unlinked (λ m. behind ("secure " +++ dir) (apply_sddl w dir (dir_sddl sid) m))
          h3 in
      let (h1, plain_fine, e2) =
        then_on_ok created (λ m. checked (refuse_reparse_point w m dir) m) h2 in
      let (owner, dacl, reads, set, on_dir) = apply_sddl_ok w dir (dir_sddl sid) unlinked.made (
        wrap_ok ("secure " +++ dir) (apply_sddl w dir (dir_sddl sid) unlinked.made).result
          apply_fine) in
      let step = apply_sddl w path (socket_sddl sid) opened.made in
      let (socket_fine, kept) =
        closed_ok path step.made (wrap ("secure " +++ path) step.result) last in
      let (s_owner, s_dacl, s_reads, s_set, on_socket) =
        apply_sddl_ok w path (socket_sddl sid) opened.made
          (wrap_ok ("secure " +++ path) step.result socket_fine) in
      let now_dir : applied.made ≡ set_security dir owner dacl ∷ created.made =
        e3 ∙ on_dir ∙ ap (λ m. set_security dir owner dacl ∷ m) e2 in
      let own = (check_path_iff w (set_security dir owner dacl ∷ created.made) dir).0 (
        subst (λ m. check_path w m dir ≡ ok tt) now_dir
          (wrap_ok dir (check_path w applied.made dir) check_fine)) in
      record {
        sid = sid;
        before = created.made;
        owner = owner;
        dacl = dacl;
        descriptor = own.0;
        socket_owner = s_owner;
        socket_dacl = s_dacl;
        group_lem = grouped;
        plain_dir = plain_fine;
        dir_lem = reads;
        set_lem = subst (λ m. w.set_security m dir owner dacl ≡ ok tt) e2 set;
        read_back = own.1;
        is_own = own.2;
        socket_lem = s_reads;
        history =
            e7
            ∙ kept
            ∙ on_socket
            ∙ ap (λ m. set_security path s_owner s_dacl ∷ m)
                (e6
                  ∙ bound_ok path emptied.made (w.bind emptied.made path) bind_fine
                  ∙ ap (λ m. bind path ∷ m)
                      (e5
                        ∙ remove_step_lem w path accepted.made
                        ∙ ap (λ m. remove_file path ∷ m) (e4 ∙ now_dir)));
      }

-- A `Listen` without an error knew the SID of the group; found the socket's directory, then there, to be
-- no reparse point; set on it the owner and the DACL of its text; read back from it, after that, a
-- descriptor that lets nobody but SYSTEM and the administrators own or write it; and only then removed
-- the old socket, opened the new one in that directory, and set on it the socket's owner and DACL,
-- with nothing between.
pub listen-Secured :
    (w : Win32) (path group : String) (made : List Call)
    → (listen w path group made).result ≡ ok tt
    → Secured w path group (listen w path group made).made
unfolding listen
listen-Secured w path group made = at (socket_group w group) refl
  where
    at :
        (r : Result String)
        → socket_group w group ≡ r
        → (grouped w path made r).result ≡ ok tt
        → Secured w path group (grouped w path made r).made
    at (err e) f h = absurd (cc)
    at (ok sid) f h = listen_as-Secured w path group sid made f h
