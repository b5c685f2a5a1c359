-- ===== src/App/Core/Settings.antt =====
-- `SaveConfig` of pkg/appcore/config.go, and `UpdateConfig` of pkg/appcore/appcore.go.
use claimward_vpn_client.Common.{
  String, [], Option, none, some, true, false, ◌≡◌, refl, sym, ap, is_blank, ◌⊎◌, inl, inr,
  Bool-cases,
}
use claimward_vpn_client.Errors.{Error, Result, ok, err, ◌>>◌}
use claimward_vpn_client.HelperClient.{socket_path}
use claimward_vpn_client.App.Config.{Config, provider_or_default, load_config, overridden, holds}
use claimward_vpn_client.App.Core.{Core}

-- The configuration file and the one beside it that a save goes through.
pub record ConfigFiles : Type 0 where
  pub config : Option String
  pub tmp : Option String

-- What the file system answers, the codec, and the helper's default socket; `written` is what a write
-- that fails leaves.
pub record Disk : Type 0 where
  pub config_dir : Result (Unit {0})
  pub mkdir : Result (Unit {0})
  pub encode : Config → Result String
  pub write : Result (Unit {0})
  pub written : Option String
  pub rename : Result (Unit {0})
  pub default_socket : String

abbrev pub renamed : ConfigFiles → Result (Unit {0}) → ConfigFiles × Result (Unit {0})
renamed f (err e) = (f, err e)
renamed f (ok u) = (record { config = f.tmp; tmp = none }, ok tt)

abbrev pub written_out :
    Disk → ConfigFiles → String → Result (Unit {0}) → ConfigFiles × Result (Unit {0})
written_out d f text (err e) = (record f { tmp = d.written }, err e)
written_out d f text (ok u) = renamed (record f { tmp = some text }) d.rename

abbrev pub encoded : Disk → ConfigFiles → Result String → ConfigFiles × Result (Unit {0})
encoded d f (err e) = (f, err e)
encoded d f (ok text) = written_out d f text d.write

-- `SaveConfig`.
unfoldable pub save_config : Disk → ConfigFiles → Config → ConfigFiles × Result (Unit {0})
save_config d f c = encoded d f (do d.config_dir; d.mkdir; d.encode c)

abbrev pub with_provider : Config → Config
with_provider c = record c { provider = provider_or_default c.provider }

-- A core under a new configuration.
abbrev pub applied : Disk → Core → Config → Core
applied d c cfg = record c {
  cfg = cfg;
  helper_path = socket_path d.default_socket cfg.socket_path;
  tenants = [];
  tenant_required = false;
}

abbrev pub config_saved :
    Disk → Core → Config → ConfigFiles × Result (Unit {0}) → Core × ConfigFiles × Result (Unit {0})
config_saved d c cfg (f, err e) = (c, f, err e)
config_saved d c cfg (f, ok u) = (applied d c cfg, f, ok tt)

-- `UpdateConfig`.
unfoldable pub update_config :
    Disk → Core → ConfigFiles → Config → Core × ConfigFiles × Result (Unit {0})
update_config d c f cfg = config_saved d c (with_provider cfg) (save_config d f (with_provider cfg))

-- A save that wrote the text, or an error that left the file.
abbrev Whole : Disk → ConfigFiles → Config → ConfigFiles → Result (Unit {0}) → Type 0
Whole d f cfg g r =
    ((r ≡ ok tt) × ((text : String) × (d.encode cfg ≡ ok text) × (g.config ≡ some text)))
    ⊎ ((e : Error) × (r ≡ err e) × (g.config ≡ f.config))

last_ok :
    (a b : Result (Unit {0})) (c : Result String) (text : String)
    → (do a; b; c) ≡ ok text
    → c ≡ ok text
last_ok (ok u) (ok v) c text h = h
last_ok (ok u) (err e) c text h = cc
last_ok (err e) b c text h = cc

module _ (d : Disk) (f : ConfigFiles) (cfg : Config) where
  renamed-Whole :
      (text : String) (r : Result (Unit {0}))
      → d.encode cfg ≡ ok text
      → let (g, q) = renamed (record f { tmp = some text }) r in Whole d f cfg g q
  renamed-Whole text (err e) x = inr (e, refl, refl)
  renamed-Whole text (ok u) x = inl (refl, (text, x, refl))

  written-Whole :
      (text : String) (r : Result (Unit {0}))
      → d.encode cfg ≡ ok text
      → let (g, q) = written_out d f text r in Whole d f cfg g q
  written-Whole text (err e) x = inr (e, refl, refl)
  written-Whole text (ok u) x = renamed-Whole text d.rename x

  encoded-Whole :
      (x : Result String)
      → ((text : String) → x ≡ ok text → d.encode cfg ≡ ok text)
      → let (g, q) = encoded d f x in Whole d f cfg g q
  encoded-Whole (err e) h = inr (e, refl, refl)
  encoded-Whole (ok text) h = written-Whole text d.write (h text refl)

  save_config-Whole : let (g, q) = save_config d f cfg in Whole d f cfg g q
  unfolding save_config
  save_config-Whole =
      encoded-Whole (do d.config_dir; d.mkdir; d.encode cfg)
        (last_ok d.config_dir d.mkdir (d.encode cfg))

-- `UpdateConfig` is all or nothing. Without an error the file holds the encoded configuration, whose
-- provider is GitHub where none was given, and the core works under it, with the helper at its socket
-- and no tenants, and is otherwise as before; with an error neither the core nor the file changed.
pub update_config_whole :
    (d : Disk) (c : Core) (f : ConfigFiles) (cfg : Config)
    → let (c', g, r) = update_config d c f cfg in
      ((r ≡ ok tt)
        × (c' ≡ applied d c (with_provider cfg))
        × ((text : String) × (d.encode (with_provider cfg) ≡ ok text) × (g.config ≡ some text)))
      ⊎ ((e : Error) × (r ≡ err e) × (c' ≡ c) × (g.config ≡ f.config))
unfolding update_config
update_config_whole d c f cfg =
    at (save_config d f (with_provider cfg)) (save_config-Whole d f (with_provider cfg))
  where
    at :
        (x : ConfigFiles × Result (Unit {0}))
        → Whole d f (with_provider cfg) x.0 x.1
        → let (c', g, r) = config_saved d c (with_provider cfg) x in
          ((r ≡ ok tt)
            × (c' ≡ applied d c (with_provider cfg))
            × ((text : String) × (d.encode (with_provider cfg) ≡ ok text) × (g.config ≡ some text)))
          ⊎ ((e : Error) × (r ≡ err e) × (c' ≡ c) × (g.config ≡ f.config))
    at (g, ok u) (inl (done, saved)) = inl (refl, refl, saved)
    at (g, ok u) (inr (e, failed, same)) = cc
    at (g, err e) (inl (done, saved)) = cc
    at (g, err e) (inr (x, failed, same)) = inr (e, refl, refl, same)

default_twice : (p : String) → provider_or_default (provider_or_default p) ≡ provider_or_default p
default_twice p = elim (Bool-cases (is_blank p)) [
  | inl blank ↦ rw blank refl
  | inr given ↦ rw given (rw given refl)
]

quiet_overridden :
    (getenv : String → String) (cfg : Config)
    → ((name : String) → is_blank (getenv name) ≡ true)
    → overridden getenv (with_provider cfg) ≡ with_provider cfg
quiet_overridden getenv cfg quiet =
    let server = quiet "CLAIMWARD_SERVER" in
    let provider = quiet "CLAIMWARD_AUTH_PROVIDER" in
    let github = quiet "CLAIMWARD_GITHUB_CLIENT_ID" in
    let issuer = quiet "CLAIMWARD_OIDC_ISSUER" in
    let client = quiet "CLAIMWARD_OIDC_CLIENT_ID" in
    let socket = quiet "CLAIMWARD_HELPER_SOCKET" in
    simp (server, provider, github, issuer, client, socket)
      (ap (λ p. record cfg { provider = p }) (default_twice cfg.provider))

-- A configuration that was saved is what the app loads when it starts again, where the environment
-- overrides nothing and the codec reads what it wrote.
pub load_config-update_config :
    (d : Disk) (decode : String → Result Config) (getenv : String → String) (c : Core)
    (f : ConfigFiles) (cfg : Config) (text : String)
    → ((name : String) → is_blank (getenv name) ≡ true)
    → ((s : String) → d.encode (with_provider cfg) ≡ ok s → decode s ≡ ok (with_provider cfg))
    → (update_config d c f cfg).2 ≡ ok tt
    → (update_config d c f cfg).1.config ≡ some text
    → load_config decode getenv (holds text) ≡ ok (update_config d c f cfg).0.cfg
unfolding load_config
load_config-update_config d decode getenv c f cfg text quiet codec done kept =
    elim (update_config_whole d c f cfg) [
      | inr (e, failed, core, same) ↦ absurd (cc)
      | inl (fine, now, (s, written, held)) ↦
          let read = codec s written in
          let one : s ≡ text = cc in
          let whole = quiet_overridden getenv cfg quiet in
          rw now (rw (sym one) (rw read (ap (λ k. ok k) whole)))
    ]
