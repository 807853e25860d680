-- ===== src/Server/Registry.antt =====
-- The map of sandboxes of cmd/server/types.go, as an association list: what Go's map operations do.
use manta.Prelude.{
  ◌≡◌, refl, ◌∙◌, ap, sym, inl, inr, false, List, [], ◌∷◌, Option, none, some, if◌then◌else◌,
  Bool-cases, subst, arith,
}
use manta.Text.{Str, str_eq, str_eq_iff}

abbrev pub Table : Type 0 → Type 0
Table A = List (Str × A)

unfoldable pub lookup : {A : Type 0} → Str → Table A → Option A
lookup k [] = none
lookup k ((j, a) ∷ l) = if str_eq k j then some a else lookup k l

unfoldable pub delete : {A : Type 0} → Str → Table A → Table A
delete k [] = []
delete k ((j, a) ∷ l) = if str_eq k j then delete k l else (j, a) ∷ delete k l

-- `m[k] = a`
abbrev pub insert : {A : Type 0} → Str → A → Table A → Table A
insert k a l = (k, a) ∷ delete k l

-- A change of the object that the map points to.
unfoldable pub update : {A : Type 0} → Str → (A → A) → Table A → Table A
update k f [] = []
update k f ((j, a) ∷ l) = if str_eq k j then (j, f a) ∷ l else (j, a) ∷ update k f l

unfoldable pub map_values : {A B : Type 0} → (A → B) → Table A → Table B
map_values v [] = []
map_values v ((j, a) ∷ l) = (j, v a) ∷ map_values v l

-- Every entry satisfies `P`.
abbrev pub Every : {A : Type 0} → (Str → A → Type 0) → Table A → Type 0
Every P [] = Unit
Every P ((j, a) ∷ l) = P j a × Every P l

-- No key stands twice.
abbrev pub IsDistinct : {A : Type 0} → Table A → Type 0
IsDistinct [] = Unit
IsDistinct ((j, a) ∷ l) = (lookup j l ≡ none) × IsDistinct l

module _ {A : Type 0} where
  pub lookup-delete : (k : Str) (l : Table A) → lookup k (delete k l) ≡ none
  unfolding lookup delete
  lookup-delete k [] = refl
  lookup-delete k ((j, a) ∷ l) = elim (Bool-cases (str_eq k j)) [
    | inl e ↦ rw e (lookup-delete k l)
    | inr e ↦ rw (e, e) (lookup-delete k l)
  ]

  pub lookup-delete_other :
      (k i : Str) (l : Table A) → str_eq i k ≡ false → lookup i (delete k l) ≡ lookup i l
  unfolding lookup delete
  lookup-delete_other k i [] h = refl
  lookup-delete_other k i ((j, a) ∷ l) h = elim (Bool-cases (str_eq k j)) [
    | inl e ↦
        let apart : str_eq i j ≡ false = subst (λ x. str_eq i x ≡ false) ((str_eq_iff k j).0 e) h in
        rw (e, apart) (lookup-delete_other k i l h)
    | inr e ↦ rw e (ap (λ x. if str_eq i j then some a else x) (lookup-delete_other k i l h))
  ]

  pub delete_absent : (k : Str) (l : Table A) → lookup k l ≡ none → delete k l ≡ l
  unfolding lookup delete
  delete_absent k [] h = refl
  delete_absent k ((j, a) ∷ l) h = elim (Bool-cases (str_eq k j)) [
    | inl e ↦ absurd (clash (subst (λ b. (if b then some a else lookup k l) ≡ none) e h))
    | inr e ↦ rw e (
        ap (λ x. (j, a) ∷ x)
          (delete_absent k l (subst (λ b. (if b then some a else lookup k l) ≡ none) e h)))
  ]
    where
      clash : some a ≡ none → ⊥
      clash e = cc

  pub Every-delete :
      (P : Str → A → Type 0) (k : Str) (l : Table A) → Every P l → Every P (delete k l)
  unfolding delete
  Every-delete P k [] h = tt
  Every-delete P k ((j, a) ∷ l) (p, h) = elim (Bool-cases (str_eq k j)) [
    | inl e ↦ rw e (Every-delete P k l h)
    | inr e ↦ rw e (p, Every-delete P k l h)
  ]

  pub Every-weaken :
      (P Q : Str → A → Type 0) (l : Table A)
      → ((k : Str) (a : A) → P k a → Q k a)
      → Every P l
      → Every Q l
  Every-weaken P Q [] f h = tt
  Every-weaken P Q ((j, a) ∷ l) f (p, h) = (f j a p, Every-weaken P Q l f h)

  -- A key that no entry can have is not there.
  pub lookup-Every :
      (P : Str → A → Type 0) (k : Str) (l : Table A)
      → ((a : A) → P k a → ⊥)
      → Every P l
      → lookup k l ≡ none
  unfolding lookup
  lookup-Every P k [] f h = refl
  lookup-Every P k ((j, a) ∷ l) f (p, h) = elim (Bool-cases (str_eq k j)) [
    | inl e ↦ absurd (f a (subst (λ x. P x a) (sym ((str_eq_iff k j).0 e)) p))
    | inr e ↦ rw e (lookup-Every P k l f h)
  ]

  pub delete-IsDistinct : (k : Str) (l : Table A) → IsDistinct l → IsDistinct (delete k l)
  unfolding delete
  delete-IsDistinct k [] h = tt
  delete-IsDistinct k ((j, a) ∷ l) (p, h) = elim (Bool-cases (str_eq k j)) [
    | inl e ↦ rw e (delete-IsDistinct k l h)
    | inr e ↦ rw e (still_absent (str_eq_flip e), delete-IsDistinct k l h)
  ]
    where
      str_eq_flip : str_eq k j ≡ false → str_eq j k ≡ false
      str_eq_flip e = ground (arith, str_eq_iff k j, str_eq_iff j k)

      still_absent : str_eq j k ≡ false → lookup j (delete k l) ≡ none
      still_absent e = lookup-delete_other k j l e ∙ p

  -- A change and its inverse.
  pub update_back :
      (k : Str) (f g : A → A) (a : A) (l : Table A)
      → lookup k l ≡ some a
      → g (f a) ≡ a
      → update k g (update k f l) ≡ l
  unfolding lookup update
  update_back k f g a [] h e = refl
  update_back k f g a ((j, b) ∷ l) h e = elim (Bool-cases (str_eq k j)) [
    | inl t ↦
        rw (t, t)
          (ap (λ x. (j, x) ∷ l)
            (same (subst (λ c. (if c then some b else lookup k l) ≡ some a) t h)))
    | inr t ↦
        rw (t, t)
          (ap (λ x. (j, b) ∷ x)
            (update_back k f g a l (subst (λ c. (if c then some b else lookup k l) ≡ some a) t h)
              e))
  ]
    where
      same : some b ≡ some a → g (f b) ≡ b
      same q = let r : b ≡ a = cc in subst (λ x. g (f x) ≡ x) (sym r) e

module _ {A B : Type 0} (v : A → B) where
  pub lookup-map_values :
      (k : Str) (a : A) (l : Table A) → lookup k l ≡ some a → lookup k (map_values v l) ≡ some (v a)
  unfolding lookup map_values
  lookup-map_values k a [] h = cc
  lookup-map_values k a ((j, b) ∷ l) h = elim (Bool-cases (str_eq k j)) [
    | inl t ↦ rw t (same (subst (λ c. (if c then some b else lookup k l) ≡ some a) t h))
    | inr t ↦
        rw t
          (lookup-map_values k a l (subst (λ c. (if c then some b else lookup k l) ≡ some a) t h))
  ]
    where
      same : some b ≡ some a → some (v b) ≡ some (v a)
      same q = cc

  pub lookup-map_values_absent :
      (k : Str) (l : Table A) → lookup k l ≡ none → lookup k (map_values v l) ≡ none
  unfolding lookup map_values
  lookup-map_values_absent k [] h = refl
  lookup-map_values_absent k ((j, b) ∷ l) h = elim (Bool-cases (str_eq k j)) [
    | inl t ↦ absurd (clash (subst (λ c. (if c then some b else lookup k l) ≡ none) t h))
    | inr t ↦
        rw t (
          lookup-map_values_absent k l (subst (λ c. (if c then some b else lookup k l) ≡ none) t h))
  ]
    where
      clash : some b ≡ none → ⊥
      clash e = cc

  pub lookup-map_values_hidden :
      (k : Str) (l : Table A) → lookup k (map_values v l) ≡ none → lookup k l ≡ none
  unfolding lookup map_values
  lookup-map_values_hidden k [] h = refl
  lookup-map_values_hidden k ((j, b) ∷ l) h = elim (Bool-cases (str_eq k j)) [
    | inl t ↦
        absurd
          (clash (subst (λ c. (if c then some (v b) else lookup k (map_values v l)) ≡ none) t h))
    | inr t ↦ rw t (
        lookup-map_values_hidden k l
          (subst (λ c. (if c then some (v b) else lookup k (map_values v l)) ≡ none) t h))
  ]
    where
      clash : some (v b) ≡ none → ⊥
      clash e = cc

  -- A change that `v` shows as the change `g`.
  pub map_values-update :
      (k : Str) (f : A → A) (g : B → B) (l : Table A)
      → ((a : A) → v (f a) ≡ g (v a))
      → map_values v (update k f l) ≡ update k g (map_values v l)
  unfolding map_values update
  map_values-update k f g [] h = refl
  map_values-update k f g ((j, a) ∷ l) h = elim (Bool-cases (str_eq k j)) [
    | inl t ↦ rw t (ap (λ x. (j, x) ∷ map_values v l) (h a))
    | inr t ↦ rw t (ap (λ x. (j, v a) ∷ x) (map_values-update k f g l h))
  ]

  pub map_values-delete :
      (k : Str) (l : Table A) → map_values v (delete k l) ≡ delete k (map_values v l)
  unfolding map_values delete
  map_values-delete k [] = refl
  map_values-delete k ((j, a) ∷ l) = elim (Bool-cases (str_eq k j)) [
    | inl t ↦ rw t (map_values-delete k l)
    | inr t ↦ rw t (ap (λ x. (j, v a) ∷ x) (map_values-delete k l))
  ]

  -- A change that `v` does not show.
  pub map_values-update_hidden :
      (k : Str) (f : A → A) (l : Table A)
      → ((a : A) → v (f a) ≡ v a)
      → map_values v (update k f l) ≡ map_values v l
  unfolding map_values update
  map_values-update_hidden k f [] h = refl
  map_values-update_hidden k f ((j, a) ∷ l) h = elim (Bool-cases (str_eq k j)) [
    | inl t ↦ rw t (ap (λ x. (j, x) ∷ map_values v l) (h a))
    | inr t ↦ rw t (ap (λ x. (j, v a) ∷ x) (map_values-update_hidden k f l h))
  ]
