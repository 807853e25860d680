-- ===== src/Text/Order.antt =====
-- Go's order of strings: by their bytes.
use manta.Prelude.{◌≡◌, refl, Bool, true, false, ◌&&◌, ◌||◌, [], ◌∷◌, arith, ltb, ◌==◌}
use manta.Prelude.Sort.{IsWeakOrder}
use manta.Text.{Str}

unfoldable pub str_lt : Str → Str → Bool
str_lt [] [] = false
str_lt [] (b ∷ t) = true
str_lt (a ∷ s) [] = false
str_lt (a ∷ s) (b ∷ t) = ltb a b || a == b && str_lt s t

str_lt_asym : (s t : Str) → str_lt s t ≡ true → str_lt t s ≡ false
unfolding str_lt
str_lt_asym [] [] h = refl
str_lt_asym [] (b ∷ t) h = refl
str_lt_asym (a ∷ s) [] h = cc
str_lt_asym (a ∷ s) (b ∷ t) h = ground (arith, str_lt_asym s t)

str_lt_trans : (r s t : Str) → str_lt s r ≡ false → str_lt t s ≡ false → str_lt t r ≡ false
unfolding str_lt
str_lt_trans [] [] [] h k = refl
str_lt_trans [] [] (c ∷ t) h k = refl
str_lt_trans [] (b ∷ s) [] h k = cc
str_lt_trans [] (b ∷ s) (c ∷ t) h k = refl
str_lt_trans (a ∷ r) [] t h k = cc
str_lt_trans (a ∷ r) (b ∷ s) [] h k = cc
str_lt_trans (a ∷ r) (b ∷ s) (c ∷ t) h k = ground (arith, str_lt_trans r s t)

-- The greatest key first.
pub descending {ℓ} : {A : Type ℓ} (key : A → Str) → IsWeakOrder (λ a b. str_lt (key b) (key a))
descending key = record {
  asym = λ a b. str_lt_asym (key b) (key a);
  trans = λ a b c h k. str_lt_trans (key c) (key b) (key a) k h;
}
