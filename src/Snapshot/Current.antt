-- ===== src/Snapshot/Current.antt =====
-- Whether the golden snapshot that is there fits the configuration: fileExists and
-- validateSnapshotMeta of cmd/server/snapshot.go.
use manta.Prelude.{
  ◌≡◌, refl, ◌⊎◌, inl, inr, ◌↔◌, true, false, Option, none, some, ◌∷◌, Bool-cases, ==_iff, ap,
}
use manta.Prelude.Int.{ℤ, pos, negsuc}
use manta.Text.{is_empty, str_eq, str_eq_iff}
use manta.Text.Trim.{trim_space}
use manta.Types.{Config, SnapshotMeta}
use manta.Machine.{Op, Env, Event, ok, World, Trace, stat, read_file}
use manta.Snapshot.{
  SnapshotPaths, decoded, check_meta, file_exists, validate_snapshot_meta, artifacts_exist,
  is_version_one,
}

abbrev pub did : Op → Event
did op = record { op = op; done = true }

-- The three files of the snapshot are there.
abbrev pub IsThere : Env → SnapshotPaths → Trace → Type 0
IsThere env sp tr =
    (env.succeeds tr (stat sp.state_file) ≡ true)
    × (env.succeeds (did (stat sp.state_file) ∷ tr) (stat sp.mem_file) ≡ true)
    × (env.succeeds (did (stat sp.mem_file) ∷ did (stat sp.state_file) ∷ tr) (stat sp.base_disk)
        ≡ true)

-- After the look at the three files.
abbrev pub seen : SnapshotPaths → Trace → Trace
seen sp tr = did (stat sp.base_disk) ∷ did (stat sp.mem_file) ∷ did (stat sp.state_file) ∷ tr

-- The metadata is of version 1, and of the lineage that is configured, where one is.
abbrev pub Fits : Config → Option SnapshotMeta → Type 0
Fits cfg none = ⊥
Fits cfg (some meta) =
    (meta.version ≡ pos 1)
    × ((is_empty (trim_space cfg.base_rootfs_lineage_id) ≡ true)
        ⊎ (meta.lineage_id ≡ cfg.base_rootfs_lineage_id))

abbrev pub IsValid : Env → SnapshotPaths → Config → Trace → Type 0
IsValid env sp cfg tr =
    (env.succeeds tr (read_file sp.meta_file) ≡ true)
    × Fits cfg (env.snapshot_meta (did (read_file sp.meta_file) ∷ tr))

abbrev pub IsCurrent : Env → SnapshotPaths → Config → Trace → Type 0
IsCurrent env sp cfg tr = IsThere env sp tr × IsValid env sp cfg (seen sp tr)

is_version_one_iff : (v : ℤ) → (is_version_one v ≡ true) ↔ (v ≡ pos 1)
is_version_one_iff (pos n) =
    (λ h. let e : n ≡ 1 = (==_iff n 1).0 h in ap pos e, λ e. ap is_version_one e)
is_version_one_iff (negsuc n) = (λ h. cc, λ e. cc)

check_meta-Fits :
    (cfg : Config) (meta : SnapshotMeta) (w : World)
    → ((check_meta cfg meta w).0 ≡ ok tt) ↔ Fits cfg (some meta)
unfolding check_meta
check_meta-Fits cfg meta w = elim (Bool-cases (is_version_one meta.version)) [
  | inr v ↦ rw v (λ e. cc, λ (one, _). let old = (is_version_one_iff _).1 one in cc)
  | inl v ↦ elim (Bool-cases (is_empty (trim_space cfg.base_rootfs_lineage_id))) [
    | inl b ↦ rw (v, b) (λ e. ((is_version_one_iff _).0 v, inl refl), λ h. refl)
    | inr b ↦ elim (Bool-cases (is_empty (trim_space meta.lineage_id))) [
      | inl n ↦ rw (v, b, n) (λ e. cc, λ (one, lineage). absurd (lineage_blank b n lineage))
      | inr n ↦ elim (Bool-cases (str_eq meta.lineage_id cfg.base_rootfs_lineage_id)) [
        | inl s ↦
            rw (v, b, n, s)
              (λ e. ((is_version_one_iff _).0 v, inr ((str_eq_iff _ _).0 s)), λ h. refl)
        | inr s ↦ rw (v, b, n, s) (λ e. cc, λ (one, lineage). absurd (other s lineage))
      ]
    ]
  ]
]
  where
    lineage_blank :
        is_empty (trim_space cfg.base_rootfs_lineage_id) ≡ false
        → is_empty (trim_space meta.lineage_id) ≡ true
        → (false ≡ true) ⊎ (meta.lineage_id ≡ cfg.base_rootfs_lineage_id)
        → ⊥
    lineage_blank b n (inl e) = cc
    lineage_blank b n (inr e) = cc

    other :
        str_eq meta.lineage_id cfg.base_rootfs_lineage_id ≡ false
        → (false ≡ true) ⊎ (meta.lineage_id ≡ cfg.base_rootfs_lineage_id)
        → ⊥
    other s (inl e) = cc
    other s (inr e) = let same = (str_eq_iff _ _).1 e in cc

module _ (env : Env) (cfg : Config) where
  decoded-Fits :
      (o : Option SnapshotMeta) (w : World) → ((decoded env cfg o w).0 ≡ ok tt) ↔ Fits cfg o
  decoded-Fits none w = (λ e. cc, λ f. absurd f)
  decoded-Fits (some meta) w = check_meta-Fits cfg meta w

  pub validate-IsValid :
      (sp : SnapshotPaths) (w : World)
      → ((validate_snapshot_meta env sp cfg w).0 ≡ ok tt) ↔ IsValid env sp cfg w.trace
  unfolding validate_snapshot_meta
  validate-IsValid sp w = elim (Bool-cases (env.succeeds w.trace (read_file sp.meta_file))) [
    | inl t ↦ rw t (λ e. (refl, (decoded-Fits _ _).0 e), λ h. (decoded-Fits _ _).1 h.1)
    | inr f ↦ rw f (λ e. cc, λ h. cc)
  ]

  pub artifacts_all :
      (sp : SnapshotPaths) (w : World)
      → IsThere env sp w.trace
      → artifacts_exist env sp w ≡ (ok true, record w { trace = seen sp w.trace })
  unfolding artifacts_exist file_exists
  artifacts_all sp w (s, m, d) = rw (s, m, d) refl

  pub artifacts-IsThere :
      (sp : SnapshotPaths) (w : World)
      → (artifacts_exist env sp w).0 ≡ ok true
      → IsThere env sp w.trace
  unfolding artifacts_exist file_exists
  artifacts-IsThere sp w h = elim (Bool-cases (env.succeeds w.trace (stat sp.state_file))) [
    | inr f ↦ let n = rw f at h in cc
    | inl s ↦
        let h1 = rw s at h in
        elim (Bool-cases (env.succeeds (did (stat sp.state_file) ∷ w.trace) (stat sp.mem_file))) [
          | inr f ↦ let n = rw f at h1 in cc
          | inl m ↦ let d = rw m at h1 in (s, m, cc)
        ]
  ]
