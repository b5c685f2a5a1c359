-- ===== src/Socket/Unix/Moments.antt =====
-- The modes that the socket of pkg/helper/listen_unix.go has while `Listen` opens it.
use claimward_vpn_client.Common.{
  ℕ, ◌+◌, ◌≡◌, refl, ◌⊎◌, inl, inr, String, List, [], ◌∷◌, ◌++◌, All, arith, ◌+++◌, quote,
}
use claimward_vpn_client.Errors.{Error, Result, ok, err, wrap, ◌>>=◌, ◌>>◌, Result-cases}
use claimward_vpn_client.Access.Unix.{check_dir}
use claimward_vpn_client.Socket.Unix.{
  Node, Removal, gone, missing, failed, Host, Unix, Outcome, mode_set, owner_set, bound, cleared,
  ready, listen,
}

-- Nobody but the owner may use the socket, or it is root's and the group may.
abbrev pub IsShut : ℕ → Node → Type 0
IsShut gid n = (n.mode ≡ 0o600) ⊎ ((n.mode ≡ 0o660) × (n.uid ≡ 0) × (n.gid ≡ gid))

-- What `Listen` leaves: the umask as it was, one listener more or an error and no more than before,
-- and a socket that was shut at every moment, and that is root's and the group's where it stays.
abbrev pub Opened : ℕ → Host → Host → Result (Unit {0}) → Type 0
Opened gid h g (ok u) =
    (g.umask ≡ h.umask)
    × (g.listeners ≡ h.listeners + 1)
    × ((n : Node) × (ns : List Node) × (g.moments ≡ n ∷ ns ++ h.moments)
        × (n.uid ≡ 0)
        × (n.gid ≡ gid)
        × (n.mode ≡ 0o660)
        × All (IsShut gid) ns)
Opened gid h g (err e) =
    (g.umask ≡ h.umask)
    × (g.listeners ≡ h.listeners)
    × ((ns : List Node) × (g.moments ≡ ns ++ h.moments) × All (IsShut gid) ns)

module _ (u : Unix) (gid : ℕ) (h : Host) where
  abbrev Fits : Outcome → Type 0
  Fits o = Opened gid h o.host o.result

  abbrev born : Node
  born = record { uid = u.uid; gid = u.gid; mode = 0o600 }

  abbrev owned : Node
  owned = record { uid = 0; gid = gid; mode = 0o600 }

  abbrev one_more : List Node → Host
  one_more ns = record { umask = h.umask; listeners = h.listeners + 1; moments = ns ++ h.moments }

  mode_set-Fits : (r : Result (Unit {0})) → Fits (mode_set u gid (one_more (owned ∷ born ∷ [])) r)
  mode_set-Fits (err e) = (refl, omega arith, (owned ∷ born ∷ [], refl, (inl refl, (inl refl, tt))))
  mode_set-Fits (ok v) = (
    refl,
    refl,
    (
      record { uid = 0; gid = gid; mode = 0o660 },
      owned ∷ born ∷ [],
      refl,
      refl,
      refl,
      refl,
      (inl refl, (inl refl, tt)),
    ),
  )

  owner_set-Fits : (r : Result (Unit {0})) → Fits (owner_set u gid (one_more (born ∷ [])) r)
  owner_set-Fits (err e) = (refl, omega arith, (born ∷ [], refl, (inl refl, tt)))
  owner_set-Fits (ok v) = mode_set-Fits u.chmod

  bound-Fits : (r : Result (Unit {0})) → Fits (bound u gid h r)
  bound-Fits (err e) = (refl, refl, ([], refl, tt))
  bound-Fits (ok v) = owner_set-Fits u.chown

  cleared-Fits : (r : Removal) → Fits (cleared u gid h r)
  cleared-Fits gone = bound-Fits u.bind
  cleared-Fits (missing e) = bound-Fits u.bind
  cleared-Fits (failed e) = (refl, refl, ([], refl, tt))

ready_ok :
    (u : Unix) (path group : String) (gid : ℕ)
    → ready u path group ≡ ok gid
    → check_dir (u.parent path) (u.stat (u.parent path)) ≡ ok tt
unfolding ready
ready_ok u path group gid =
    at (wrap ("the helper's group " +++ quote group) (u.lookup_group group))
      (check_dir (u.parent path) (u.stat (u.parent path)))
  where
    numbered : (n : Result ℕ) (c : Result (Unit {0})) → (do g ← n; c; ok g) ≡ ok gid → c ≡ ok tt
    numbered (err e) c h = cc
    numbered (ok g) (err e) h = cc
    numbered (ok g) (ok v) h = refl

    at :
        (r : Result String) (c : Result (Unit {0}))
        → (do text ← r; g ← u.atoi text; c; ok g) ≡ ok gid
        → c ≡ ok tt
    at (err e) c h = cc
    at (ok text) c h = numbered (u.atoi text) c h

-- Either the group is unknown or the directory is refused, and `Listen` touches nothing; or the
-- directory was accepted, the umask is as before in the end, and from the socket's birth on nobody but
-- its owner may use it until it is root's and the group's, with the mode 0660 only from then on. Without
-- an error it is so in the end and one listener more is open; with an error no more than before.
pub listen-Opened :
    (u : Unix) (path group : String) (h : Host)
    → ((e : Error) × (ready u path group ≡ err e)
        × (listen u path group h ≡ record { host = h; result = err e }))
      ⊎ ((gid : ℕ) × (ready u path group ≡ ok gid)
          × (check_dir (u.parent path) (u.stat (u.parent path)) ≡ ok tt)
          × Opened gid h (listen u path group h).host (listen u path group h).result)
unfolding listen
listen-Opened u path group h = elim (Result-cases (ready u path group)) [
  | inr (e, f) ↦ rw f (inl (e, refl, refl))
  | inl (gid, f) ↦
      let accepted = ready_ok u path group gid f in
      rw f (inr (gid, refl, accepted, cleared-Fits u gid h u.remove))
]
