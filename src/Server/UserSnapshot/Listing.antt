-- ===== src/Server/UserSnapshot/Listing.antt =====
-- `listUserSnapshots` and `handleSnapshotList` of cmd/server/user_snapshot.go: the snapshots whose
-- metadata can be read, by the text of the time of their creation.
use mathlib.Core.List.{Perm}
use mathlib.Core.Option
use manta.Prelude.{
  ◌≡◌, refl, ap, sym, ◌⊎◌, inl, inr, Bool, true, false, List, [], ◌∷◌, Option, none, some, String,
  if◌then◌else◌, Bool-cases,
}
use manta.Prelude.Sort.{sort, IsSorted, sort-perm, sort-IsSorted}
use manta.Text.{Str, is_empty, join}
use manta.Text.Trim.{trim_space}
use manta.Text.Order.{str_lt, descending}
use manta.Types.{Config, UserSnapshotMeta}
use manta.Machine.{
  Env, Error, Result, ok, err, World, Trace, M, pure, raise, gets, catch, try, observe, ◌>>=◌,
  read_dir, read_file,
}
use manta.Server.{Reply, listed, failed}
use manta.Server.UserSnapshot.{user_snapshot_meta_path, load_user_snapshot_meta, with_id}
use manta.Server.UserSnapshot.Ids.{normalize_snapshot_id}

abbrev pub newer : UserSnapshotMeta → UserSnapshotMeta → Bool
newer a b = str_lt b.created_at a.created_at

abbrev pub user_snapshots_dir : Str → Str
user_snapshots_dir work_dir = join work_dir "user-snapshots"

-- The metadata with the id that it may lack.
abbrev pub filled : Str → UserSnapshotMeta → UserSnapshotMeta
filled id meta =
    if is_empty (trim_space meta.snapshot_id) then record meta { snapshot_id = id } else meta

-- What an entry of the directory adds to the list.
abbrev pub found : Config → (Str → Option UserSnapshotMeta) → String ⊎ Str → Option UserSnapshotMeta
found cfg disk (inl text) = none
found cfg disk (inr id) = Option.map (filled id) (disk (user_snapshot_meta_path cfg.work_dir id))

abbrev pub with_found : Option UserSnapshotMeta → List UserSnapshotMeta → List UserSnapshotMeta
with_found none rest = rest
with_found (some meta) rest = meta ∷ rest

-- The snapshots that the directory holds, by its entries and the metadata on the disk.
unfoldable pub snapshots_on :
    Config → (Str → Option UserSnapshotMeta) → List (Str × Bool) → List UserSnapshotMeta
snapshots_on cfg disk [] = []
snapshots_on cfg disk ((name, false) ∷ entries) = snapshots_on cfg disk entries
snapshots_on cfg disk ((name, true) ∷ entries) =
    with_found (found cfg disk (normalize_snapshot_id name)) (snapshots_on cfg disk entries)

module _ (env : Env) where
  -- loadUserSnapshotMeta on a name that need not be an id.
  abbrev pub load_named : Config → String ⊎ Str → M UserSnapshotMeta
  load_named cfg (inl text) = raise Error.invalid_snapshot_id
  load_named cfg (inr id) = load_user_snapshot_meta env cfg id

  abbrev pub kept : Result UserSnapshotMeta → List UserSnapshotMeta → List UserSnapshotMeta
  kept (ok meta) rest = meta ∷ rest
  kept (err e) rest = rest

  -- The loop over the entries of the directory, which skips files and what cannot be loaded.
  unfoldable pub load_entries : Config → List (Str × Bool) → M (List UserSnapshotMeta)
  load_entries cfg [] = pure []
  load_entries cfg ((name, false) ∷ entries) = load_entries cfg entries
  load_entries cfg ((name, true) ∷ entries) = do
    loaded ← catch (load_named cfg (normalize_snapshot_id name))
    rest ← load_entries cfg entries
    pure (kept loaded rest)

  abbrev pub list_entries : Config → M (List UserSnapshotMeta)
  list_entries cfg = do
    entries ← observe env.entries
    out ← load_entries cfg entries
    pure (sort newer out)

  abbrev pub no_entries : M (List UserSnapshotMeta)
  no_entries = do
    missing ← observe env.missing
    if missing then pure [] else raise Error.read_snapshots_dir

  unfoldable pub list_user_snapshots : Config → M (List UserSnapshotMeta)
  list_user_snapshots cfg = do
    there ← try env (read_dir (user_snapshots_dir cfg.work_dir))
    if there then list_entries cfg else no_entries

  abbrev pub list_reply : Result (List UserSnapshotMeta) → M Reply
  list_reply (ok items) = pure (listed items)
  list_reply (err e) = pure (failed e)

  unfoldable pub handle_snapshot_list : M Reply
  handle_snapshot_list = do
    cfg ← gets (λ s. s.cfg)
    items ← catch (list_user_snapshots cfg)
    list_reply items

  -- A file system whose metadata files stay as they are: `disk` is what reading and decoding a
  -- file gives, none where either fails.
  pub record IsDisk (disk : Str → Option UserSnapshotMeta) : Type 0 where
    pub reads :
        (tr : Trace) (path : Str)
        → (if env.succeeds tr (read_file path)
            then env.user_snapshot_meta (record { op = read_file path; done = true } ∷ tr)
            else none)
          ≡ disk path

  abbrev IsLoaded : Result UserSnapshotMeta → Option UserSnapshotMeta → Type 0
  IsLoaded r o = (rest : List UserSnapshotMeta) → kept r rest ≡ with_found o rest

  module _ (cfg : Config) (disk : Str → Option UserSnapshotMeta) (d : IsDisk disk) where
    with_id-IsLoaded :
        (id : Str) (o : Option UserSnapshotMeta) (w : World)
        → IsLoaded (with_id env id o w).0 (Option.map (filled id) o)
    with_id-IsLoaded id none w rest = refl
    with_id-IsLoaded id (some meta) w rest = refl

    load-IsLoaded :
        (o : String ⊎ Str) (w : World) → IsLoaded (load_named cfg o w).0 (found cfg disk o)
    unfolding load_user_snapshot_meta
    load-IsLoaded (inl text) w = λ rest. refl
    load-IsLoaded (inr id) w =
        let path = user_snapshot_meta_path cfg.work_dir id in
        elim (Bool-cases (env.succeeds w.trace (read_file path))) [
          | inl e ↦
              rw (e, sym (rw e at (d.reads w.trace path)))
                (with_id-IsLoaded id (env.user_snapshot_meta _) _)
          | inr e ↦ rw (e, sym (rw e at (d.reads w.trace path))) (λ rest. refl)
        ]

    load_entries_found :
        (entries : List (Str × Bool)) (w : World)
        → (load_entries cfg entries w).0 ≡ ok (snapshots_on cfg disk entries)
    unfolding load_entries snapshots_on
    load_entries_found [] w = refl
    load_entries_found ((name, false) ∷ entries) w = load_entries_found entries w
    load_entries_found ((name, true) ∷ entries) w =
        rw (load_entries_found entries _) (ap ok (load-IsLoaded (normalize_snapshot_id name) w _))

  -- On a disk that stays as it is, where the directory can be read, the handler lists a
  -- rearrangement of the snapshots that the directory holds, none before one that its text of the
  -- time of creation puts later.
  pub handle_snapshot_list-IsSorted :
      (disk : Str → Option UserSnapshotMeta) (w : World)
      → IsDisk disk
      → env.succeeds w.trace (read_dir (user_snapshots_dir w.server.cfg.work_dir)) ≡ true
      → let tr : Trace =
          record { op = read_dir (user_snapshots_dir w.server.cfg.work_dir); done = true }
          ∷ w.trace in
        (items : List UserSnapshotMeta) × ((handle_snapshot_list w).0 ≡ ok (listed items))
        × Perm items (snapshots_on w.server.cfg disk (env.entries tr))
        × IsSorted newer items
  unfolding handle_snapshot_list list_user_snapshots
  handle_snapshot_list-IsSorted disk w d there =
      let tr : Trace =
        record { op = read_dir (user_snapshots_dir w.server.cfg.work_dir); done = true }
        ∷ w.trace in
      let held = snapshots_on w.server.cfg disk (env.entries tr) in
      (
        sort newer held,
        rw (there, load_entries_found w.server.cfg disk d (env.entries tr) _) refl,
        sort-perm newer held,
        sort-IsSorted newer (descending (λ m. m.created_at)) held,
      )
