-- ===== src/Netns/Pool/Slots.antt =====
-- The entries of the pool under any sequence of acquisitions, releases and losses.
use manta.Prelude.{
  ℕ, ◌+◌, ◌≤◌, ◌≡◌, refl, ap, true, List, [], ◌∷◌, ◌++◌, some, arith, length, ltb, replace, total,
  total-append, total-replace, total-nil, total-cons, total-length,
}
use manta.Types.{NetnsConfig, NetnsPool}
use manta.Netns.Pool.{acquire, release}

-- `held` are the entries that sandboxes own, `lost` those that a failed creation removed without
-- a release.
pub record Slots : Type 0 where
  pub pool : NetnsPool
  pub held : List NetnsConfig
  pub lost : List NetnsConfig

pub data Step : Slots → Slots → Type 0 where
  acquires :
      (s : Slots) (nc : NetnsConfig) (p : NetnsPool)
      → acquire s.pool ≡ some (nc, p)
      → Step s (record s { pool = p; held = nc ∷ s.held })
  releases :
      (s : Slots) (before after : List NetnsConfig) (nc : NetnsConfig) (p : NetnsPool)
      → s.held ≡ replace before nc after
      → release s.pool nc ≡ some p
      → Step s (record s { pool = p; held = before ++ after })
  loses :
      (s : Slots) (before after : List NetnsConfig) (nc : NetnsConfig)
      → s.held ≡ replace before nc after
      → Step s (record s { held = before ++ after; lost = nc ∷ s.lost })

-- From a pool that `Init` has filled.
pub data Reach (p : NetnsPool) : Slots → Type 0 where
  start : p.ch ≡ p.all → length p.all ≤ p.size → Reach p (record { pool = p; held = []; lost = [] })
  later : {s t : Slots} → Reach p s → Step s t → Reach p t

-- Every entry is in one place: the channel, a sandbox, or lost.
pub record IsConserved (s : Slots) : Type 0 where
  pub sums :
      (w : NetnsConfig → ℕ)
      → total w s.pool.ch + total w s.held + total w s.lost ≡ total w s.pool.all
  pub room : length s.pool.all ≤ s.pool.size

acquire-sums :
    (w : NetnsConfig → ℕ) (p q : NetnsPool) (nc : NetnsConfig)
    → acquire p ≡ some (nc, q)
    → (total w p.ch ≡ w nc + total w q.ch) × (q.all ≡ p.all) × (q.size ≡ p.size)
unfolding acquire total
acquire-sums w p q nc e = ground arith

release-sums :
    (w : NetnsConfig → ℕ) (p q : NetnsPool) (nc : NetnsConfig)
    → release p nc ≡ some q
    → (total w q.ch ≡ total w p.ch + w nc) × (q.all ≡ p.all) × (q.size ≡ p.size)
unfolding release
release-sums w p q nc e =
    ground (arith, total-append w p.ch (nc ∷ []), total-cons w nc [], total-nil w)

held_parts :
    (w : NetnsConfig → ℕ) {xs : List NetnsConfig} (before after : List NetnsConfig)
    (nc : NetnsConfig)
    → xs ≡ replace before nc after
    → total w xs ≡ total w (before ++ after) + w nc
held_parts w before after nc e =
    omega (arith, ap (total w) e, total-replace w before nc after, total-append w before after)

Step-IsConserved : {s t : Slots} → Step s t → IsConserved s → IsConserved t
Step-IsConserved (acquires s nc p e) v = record {
  sums = λ w. ground (arith, v.sums w, acquire-sums w s.pool p nc e, total-cons w nc s.held);
  room = ground (arith, acquire-sums (λ _. 0) s.pool p nc e);
}
Step-IsConserved (releases s before after nc p h e) v = record {
  sums =
      λ w. ground (arith, v.sums w, release-sums w s.pool p nc e, held_parts w before after nc h);
  room = ground (arith, release-sums (λ _. 0) s.pool p nc e);
}
Step-IsConserved (loses s before after nc h) v = record {
  sums = λ w. omega (arith, v.sums w, held_parts w before after nc h, total-cons w nc s.lost);
  room = v.room;
}

Reach-IsConserved : {p : NetnsPool} {s : Slots} → Reach p s → IsConserved s
Reach-IsConserved {p} (start filled room) = record {
  sums = λ w. omega (arith, ap (total w) filled, total-nil w);
  room = room;
}
Reach-IsConserved (later r st) = Step-IsConserved st (Reach-IsConserved r)

-- In every reachable state each entry that `Init` made is in exactly one place: in the channel,
-- with one sandbox, or lost. That is said by sums over any weight of the entries.
pub pool_conserved :
    {p : NetnsPool} {s : Slots}
    → Reach p s
    → (w : NetnsConfig → ℕ)
    → total w s.pool.ch + total w s.held + total w s.lost ≡ total w s.pool.all
pool_conserved r w = (Reach-IsConserved r).sums w

-- The send of a release never blocks: the entry that comes back has room in the channel.
pub release_never_blocks :
    {p : NetnsPool} {s : Slots} (before after : List NetnsConfig) (nc : NetnsConfig)
    → Reach p s
    → s.held ≡ replace before nc after
    → (q : NetnsPool) × (release s.pool nc ≡ some q) × (q.ch ≡ s.pool.ch ++ nc ∷ [])
unfolding release
release_never_blocks {s = s} before after nc r h =
    let v = Reach-IsConserved r in
    let fits : ltb (length s.pool.ch) s.pool.size ≡ true = ground (
      arith,
      v.room,
      v.sums (λ _. 1),
      held_parts (λ _. 1) before after nc h,
      total-length s.pool.ch,
      total-length s.pool.all,
    ) in
    (record s.pool { ch = s.pool.ch ++ nc ∷ [] }, rw fits, refl)
