-- ===== src/Prelude/Sort.antt =====
-- sort.Slice: a rearrangement that is in order. Where `less` orders two entries in neither way, Go
-- leaves their order open, and this sort is one of those that it may be.
use mathlib.Core.List.{Mem, Perm, Pairwise, Pairwise-singleton, forall_mem-cons}
use mathlib.Core.List.Perm
use Prim.Native.Nat.{suc}
use native.Mathlib.Omega.{arith}
use mathlib.Core.Path.{◌≡◌, refl}
use mathlib.Core.Logic.{inl, inr}
use mathlib.Core.Bool.{Bool, true, false, Bool-set}
use mathlib.Core.List.{List, [], ◌∷◌}
use manta.Prelude.Lists.{length}
use manta.Prelude.Tests.{if◌then◌else◌, Bool-cases}

module _ {ℓ} {A : Type ℓ} (less : A → A → Bool) where
  abbrev pub insert_sorted : A → List A → List A
  insert_sorted x [] = x ∷ []
  insert_sorted x (y ∷ ys) = if less y x then y ∷ insert_sorted x ys else x ∷ y ∷ ys

  unfoldable pub sort : List A → List A
  sort [] = []
  sort (x ∷ xs) = insert_sorted x (sort xs)

  -- No entry is less than an earlier one.
  abbrev pub IsSorted : List A → Type ℓ
  IsSorted = Pairwise (λ a b. less b a ≡ false)

  -- What sort.Slice asks of `less`: a strict weak order.
  pub record IsWeakOrder : Type ℓ where
    pub asym : (a b : A) → less a b ≡ true → less b a ≡ false
    pub trans : (a b c : A) → less b a ≡ false → less c b ≡ false → less c a ≡ false

  insert_sorted-perm : (x : A) (l : List A) → Perm (insert_sorted x l) (x ∷ l)
  insert_sorted-perm x [] = Perm.rfl
  insert_sorted-perm x (y ∷ ys) = elim (Bool-cases (less y x)) [
    | inl e ↦ rw e (Perm.trans (Perm.cons y (insert_sorted-perm x ys)) (Perm.swap x y ys))
    | inr e ↦ rw e Perm.rfl
  ]

  pub sort-perm : (l : List A) → Perm (sort l) l
  unfolding sort
  sort-perm [] = Perm.rfl
  sort-perm (x ∷ xs) = Perm.trans (insert_sorted-perm x (sort xs)) (Perm.cons x (sort-perm xs))

  length-insert_sorted : (x : A) (l : List A) → length (insert_sorted x l) ≡ suc (length l)
  length-insert_sorted x [] = refl
  length-insert_sorted x (y ∷ ys) = ground (arith, length-insert_sorted x ys)

  pub length-sort : (l : List A) → length (sort l) ≡ length l
  unfolding sort
  length-sort [] = refl
  length-sort (x ∷ xs) = omega (arith, length-insert_sorted x (sort xs), length-sort xs)

  module _ (o : IsWeakOrder) where
    abbrev IsBelow : A → List A → Type ℓ
    IsBelow a l = (x : A) → Mem x l → less x a ≡ false

    IsBelow-cons : (a b : A) (l : List A) → less b a ≡ false → IsBelow a l → IsBelow a (b ∷ l)
    IsBelow-cons a b l p h = (forall_mem-cons (λ x. Bool-set (less x a) false)).1 (p, h)

    IsBelow-head : (a b : A) (l : List A) → less b a ≡ false → IsBelow b l → IsBelow a (b ∷ l)
    IsBelow-head a b l p h = IsBelow-cons a b l p (λ x m. o.trans a b x p (h x m))

    insert_sorted-IsSorted : (x : A) (l : List A) → IsSorted l → IsSorted (insert_sorted x l)
    insert_sorted-IsSorted x [] Pairwise.nil = Pairwise-singleton _ x
    insert_sorted-IsSorted x (y ∷ ys) (Pairwise.cons below s) = elim (Bool-cases (less y x)) [
      | inl e ↦ rw e (
          Pairwise.cons
            (λ z m.
              IsBelow-cons y x ys (o.asym y x e) below z
                ((Perm.mem_iff (insert_sorted-perm x ys)).0 m))
            (insert_sorted-IsSorted x ys s))
      | inr e ↦ rw e (Pairwise.cons (IsBelow-head x y ys e below) (Pairwise.cons below s))
    ]

    pub sort-IsSorted : (l : List A) → IsSorted (sort l)
    unfolding sort
    sort-IsSorted [] = Pairwise.nil
    sort-IsSorted (x ∷ xs) = insert_sorted-IsSorted x (sort xs) (sort-IsSorted xs)
