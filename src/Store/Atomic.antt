-- ===== src/Store/Atomic.antt =====
-- A save of pkg/tokenstore/tokenstore.go is all or nothing, and a load finds what was saved.
use claimward_vpn_client.Common.{String, some, ◌≡◌, refl, sym, ◌∙◌, arith, ◌⊎◌, inl, inr}
use claimward_vpn_client.Errors.{Error, Result, ok, err, ◌>>◌, Result-cases}
use claimward_vpn_client.Store.{
  Stored, Files, Os, load, save, make_dir, write_file, rename_file, decoded,
}

rename_atomic :
    (os : Os) (f : Files) (r : Result (Unit {0}))
    → let (g, q) = rename_file os f r in
      ((q ≡ ok tt) × (g.session ≡ f.tmp)) ⊎ ((e : Error) × (q ≡ err e) × (g.session ≡ f.session))
rename_atomic os f (err e) = inr (e, refl, refl)
rename_atomic os f (ok u) = inl (refl, refl)

write_atomic :
    (os : Os) (f : Files) (text : String) (r : Result (Unit {0}))
    → let (g, q) = write_file os f text r in
      ((q ≡ ok tt) × (g.session ≡ some text))
      ⊎ ((e : Error) × (q ≡ err e) × (g.session ≡ f.session))
write_atomic os f text (err e) = inr (e, refl, refl)
write_atomic os f text (ok u) = rename_atomic os (record f { tmp = some text }) os.rename

make_atomic :
    (os : Os) (f : Files) (text : String) (r : Result (Unit {0}))
    → let (g, q) = make_dir os f text r in
      ((q ≡ ok tt) × (g.session ≡ some text))
      ⊎ ((e : Error) × (q ≡ err e) × (g.session ≡ f.session))
make_atomic os f text (err e) = inr (e, refl, refl)
make_atomic os f text (ok u) = write_atomic os f text os.write

-- Whatever fails on the way, a save leaves the new session or, with an error, the old one: never a
-- part of either.
pub save_atomic :
    (os : Os) (f : Files) (s : Stored)
    → let (g, q) = save os f s in
      ((q ≡ ok tt) × (g.session ≡ some (os.encode s)))
      ⊎ ((e : Error) × (q ≡ err e) × (g.session ≡ f.session))
unfolding save
save_atomic os f s = make_atomic os f (os.encode s) (os.user_dir >> os.mkdir)

-- A save that reports success has put the new session in the place of the old.
pub save_written :
    (os : Os) (f : Files) (s : Stored)
    → (save os f s).1 ≡ ok tt
    → (save os f s).0.session ≡ some (os.encode s)
save_written os f s h = elim (save_atomic os f s) [
  | inl done ↦ done.1
  | inr failed ↦ absurd (cc (sym h ∙ failed.1))
]

loaded :
    (os : Os) (f : Files)
    → os.read ≡ ok tt
    → (r : Result (Unit {0})) → r ≡ ok tt
    → (do r; os.read; decoded os f.session) ≡ decoded os f.session
loaded os f readable (ok u) found = rw readable refl
loaded os f readable (err e) found = absurd (ground arith)

-- What was saved is what is loaded, on a system that can read the file, with a codec that reads what
-- it wrote.
pub load-save :
    (os : Os) (f : Files) (s : Stored)
    → os.decode (os.encode s) ≡ ok s
    → os.read ≡ ok tt
    → (save os f s).1 ≡ ok tt
    → load os (save os f s).0 ≡ ok (some s)
unfolding load save
load-save os f s codec readable saved = elim (Result-cases os.user_dir) [
  | inr (e, lost) ↦ absurd (ground arith)
  | inl (u, found) ↦ elim (save_atomic os f s) [
    | inr failed ↦ absurd (cc (sym saved ∙ failed.1))
    | inl done ↦ loaded os (save os f s).0 readable os.user_dir found ∙ rw done.1 (rw codec refl)
  ]
]
