-- ===== src/Startup/Load/Valid.antt =====
-- What every configuration that `loadConfig` accepts has.
use manta.Prelude.{
  ◌≡◌, refl, ap, subst, ◌∙◌, ◌⊎◌, inl, inr, Bool, true, false, ◌∷◌, Option, none, some,
  if◌then◌else◌, Bool-cases,
}
use manta.Text.{Str, lit, is_empty, str_eq, str_eq_iff}
use manta.Text.Trim.{trim_space, trim_space-trim_space}
use manta.Types.{Config}
use manta.Machine.{Env, Error, World, Trace, pure, ok, open_file, copy_to_hash}
use manta.Machine.Yields.{Returned, Yields, Yields-pure, Yields-raise, Yields-then, yields_rules}
use manta.Startup.Load.{
  config_from_env, is_clone_mode, resolved, resolve, resolve_paths, compute_file_sha256,
  set_lineage, with_lineage, route_interface, detect_default_interface, host_interface,
  with_interface, with_mode, load_config,
}

abbrev pub IsAbsolute : Str → Type 0
IsAbsolute p = (rest : Str) × (p ≡ 47 ∷ rest)

-- What filepath.Abs and the hexadecimal text of a hash promise.
pub record IsGo (env : Env) : Type 0 where
  pub absolute : (p q : Str) → env.absolute p ≡ some q → IsAbsolute q
  pub sha256 : (tr : Trace) → is_empty (trim_space (env.sha256 tr)) ≡ false

-- `cfg` with the settings of `base` in place of what `loadConfig` works out itself.
abbrev pub unresolved : Config → Config → Config
unresolved base cfg = record cfg {
  kernel_path = base.kernel_path;
  base_rootfs_path = base.base_rootfs_path;
  ssh_private_key = base.ssh_private_key;
  work_dir = base.work_dir;
  base_rootfs_lineage_id = base.base_rootfs_lineage_id;
  host_nat_iface = base.host_nat_iface;
}

-- The paths are absolute and the rest is `base`'s.
abbrev pub IsResolved : Config → Config → Type 0
IsResolved base cfg =
    IsAbsolute cfg.kernel_path
    × IsAbsolute cfg.base_rootfs_path
    × IsAbsolute cfg.ssh_private_key
    × IsAbsolute cfg.work_dir
    × (unresolved base cfg ≡ base)

-- The calls that read a file for its hash, after others.
abbrev pub hashed : Str → Trace → Trace
hashed path tr =
    record { op = copy_to_hash path; done = true }
    ∷ record { op = open_file path; done = true }
    ∷ tr

-- The text is the hash of the file, as it was read at some time, and is not blank.
abbrev pub IsHashOf : Env → Str → Str → Type 0
IsHashOf env path s =
    ((tr : Trace) × (s ≡ env.sha256 (hashed path tr))) × (is_empty (trim_space s) ≡ false)

-- Where snapshots are on, the lineage is the hash of the base file system.
abbrev pub HasLineage : Env → Config → Type 0
HasLineage env cfg =
    cfg.enable_snapshots ≡ true → IsHashOf env cfg.base_rootfs_path cfg.base_rootfs_lineage_id

abbrev pub HasMode : Config → Type 0
HasMode cfg =
    (cfg.rootfs_clone_mode ≡ lit "auto") ⊎ (cfg.rootfs_clone_mode ≡ lit "reflink-required")

abbrev pub HasInterface : Config → Type 0
HasInterface cfg = is_empty (trim_space cfg.host_nat_iface) ≡ false

abbrev pub IsLoaded : Env → Config → Config → Type 0
IsLoaded env base cfg = IsResolved base cfg × HasLineage env cfg × HasMode cfg × HasInterface cfg

abbrev IsVisible : Str → Type 0
IsVisible s = is_empty (trim_space s) ≡ false

module _ (env : Env) (go : IsGo env) where
  resolve-Yields : (p : Str) → Yields IsAbsolute (resolve env p)
  resolve-Yields p = yields (env.absolute p) refl
    where
      yields : (o : Option Str) → env.absolute p ≡ o → Yields IsAbsolute (resolved env o)
      yields none e = Yields-raise Error.resolve_path
      yields (some q) e = Yields-pure q (go.absolute p q e)

  paths-Yields : (cfg : Config) → Yields (IsResolved cfg) (resolve_paths env cfg)
  unfolding resolve_paths
  paths-Yields cfg = Yields-then IsAbsolute _ _ (resolve-Yields cfg.kernel_path) λ kernel hk.
      Yields-then IsAbsolute _ _ (resolve-Yields cfg.base_rootfs_path) λ base hb.
        Yields-then IsAbsolute _ _ (resolve-Yields cfg.ssh_private_key) λ key hs.
          Yields-then IsAbsolute _ _ (resolve-Yields cfg.work_dir)
            λ dir hd. Yields-pure _ (hk, hb, hs, hd, refl)

  hash-Yields : (path : Str) → Yields (IsHashOf env path) (compute_file_sha256 env path)
  unfolding compute_file_sha256
  hash-Yields path = record { at = λ w. read w }
    where
      read : (w : World) → Returned (IsHashOf env path) (compute_file_sha256 env path w).0
      read w = elim (Bool-cases (env.succeeds w.trace (open_file path))) [
        | inr f ↦ rw f tt
        | inl t ↦
            let opened = record { op = open_file path; done = true } ∷ w.trace in
            elim (Bool-cases (env.succeeds opened (copy_to_hash path))) [
              | inr f ↦ rw (t, f) tt
              | inl t' ↦ rw (t, t') ((w.trace, refl), go.sha256 _)
            ]
      ]

  lineage-Yields :
      (base cfg : Config)
      → IsResolved base cfg
      → Yields (λ c. IsResolved base c × HasLineage env c) (with_lineage env cfg)
  unfolding with_lineage
  lineage-Yields base cfg h = chosen cfg.enable_snapshots refl
    where
      chosen :
          (b : Bool)
          → cfg.enable_snapshots ≡ b
          → Yields
              (λ c. IsResolved base c × HasLineage env c)
              (if b then set_lineage env cfg else pure cfg)
      chosen true on =
          Yields-then (IsHashOf env cfg.base_rootfs_path) _ _ (hash-Yields cfg.base_rootfs_path)
            (λ lineage v. Yields-pure _ (h, λ e. v))
      chosen false off = Yields-pure cfg (h, λ e. cc)

  route-Yields : (iface : Str) → Yields IsVisible (route_interface env (trim_space iface))
  route-Yields iface = elim (Bool-cases (is_empty (trim_space iface))) [
    | inl e ↦ rw e (Yields-raise Error.no_default_route)
    | inr e ↦ rw e (Yields-pure _ (ap is_empty (trim_space-trim_space iface) ∙ e))
  ]

  detect-Yields : Yields IsVisible (detect_default_interface env)
  unfolding detect_default_interface
  detect-Yields = search (yields_rules, route-Yields) depth 8

  host-Yields : (iface : Str) → Yields IsVisible (host_interface env (trim_space iface))
  host-Yields iface = elim (Bool-cases (is_empty (trim_space iface))) [
    | inl e ↦ rw e detect-Yields
    | inr e ↦ rw e (Yields-pure _ (ap is_empty (trim_space-trim_space iface) ∙ e))
  ]

  mode-Yields :
      (base cfg : Config)
      → IsResolved base cfg × HasLineage env cfg
      → Yields (IsLoaded env base) (with_mode env cfg)
  unfolding with_interface
  mode-Yields base cfg (h, l) = elim (Bool-cases (is_clone_mode cfg.rootfs_clone_mode)) [
    | inl e ↦ rw e (
        Yields-then IsVisible _ _ (host-Yields (env.getenv (lit "MANTA_HOST_IFACE")))
          (λ iface v. Yields-pure _ (h, l, mode e, v)))
    | inr e ↦ rw e (Yields-raise Error.invalid_clone_mode)
  ]
    where
      mode : is_clone_mode cfg.rootfs_clone_mode ≡ true → HasMode cfg
      mode e = elim (Bool-cases (str_eq cfg.rootfs_clone_mode (lit "auto"))) [
        | inl a ↦ inl ((str_eq_iff _ (lit "auto")).0 a)
        | inr a ↦ inr ((str_eq_iff _ (lit "reflink-required")).0 (rw a at e))
      ]

  load-Yields : Yields (IsLoaded env (config_from_env env)) (load_config env)
  unfolding load_config
  load-Yields =
      Yields-then (IsResolved (config_from_env env)) _ _ (paths-Yields (config_from_env env))
        λ cfg h.
          Yields-then (λ c. IsResolved (config_from_env env) c × HasLineage env c) _ _
            (lineage-Yields (config_from_env env) cfg h)
            (λ cfg' h'. mode-Yields (config_from_env env) cfg' h')

  -- A configuration that `loadConfig` accepts has absolute paths, one of the two clone modes, the
  -- name of an interface that is not blank and, where snapshots are on, as its lineage the SHA-256
  -- of the file at its base_rootfs_path, as that was read; everything else in it is what the
  -- environment says.
  pub load_config-IsLoaded :
      (w : World) (cfg : Config)
      → (load_config env w).0 ≡ ok cfg
      → IsLoaded env (config_from_env env) cfg
  load_config-IsLoaded w cfg e =
      subst (Returned (IsLoaded env (config_from_env env))) e (load-Yields.at w)
