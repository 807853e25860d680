-- ===== src/Text/Decimal.antt =====
-- fmt.Sprintf with %d and %03d of a number that is not negative.
use mathlib.Core.List.{foldl, foldl-append}
use manta.Prelude.{
  ℕ, zero, suc, ◌+◌, ◌-◌, ◌*◌, ◌/◌, ◌%◌, ◌<◌, ◌≡◌, refl, sym, ap, ◌∙◌, [], ◌∷◌, ◌++◌, arith, ltb,
  if◌then◌else◌, length, replicate, inl, inr, Bool-cases, ltb→lt,
}
use manta.Text.{Str, lit}

-- The digits of `n`, on fuel above `n`.
digits : ℕ → ℕ → Str
digits zero n = []
digits (suc f) n =
    let front = digits f (n / 10) in if ltb n 10 then (48 + n) ∷ [] else front ++ (48 + n % 10) ∷ []

-- %d
unfoldable pub dec : ℕ → Str
unfolding digits
dec n = digits (suc n) n

-- %03d
unfoldable pub dec3 : ℕ → Str
unfolding dec
dec3 n = replicate (3 - length (dec n)) 48 ++ dec n

abbrev add_digit : ℕ → ℕ → ℕ
add_digit n c = n * 10 + (c - 48)

pub value : Str → ℕ
value = foldl add_digit 0

value-digits : (f n : ℕ) → n < f → value (digits f n) ≡ n
unfolding digits value
value-digits zero n h = elim h [ ]
value-digits (suc f) n h = elim (Bool-cases (ltb n 10)) [
  | inl small ↦ rw small (omega arith)
  | inr large ↦
      let ih : foldl add_digit 0 (digits f (n / 10)) ≡ n / 10 =
        value-digits f (n / 10) (ground arith) in
      rw large (rw foldl-append (rw ih (omega arith)))
]

pub value-dec : (n : ℕ) → value (dec n) ≡ n
unfolding dec
value-dec n = value-digits (suc n) n (omega arith)

value-zeros : (k : ℕ) (s : Str) → value (replicate k 48 ++ s) ≡ value s
unfolding value
value-zeros zero s = refl
value-zeros (suc k) s = value-zeros k s

-- Two numbers that print alike are the same.
pub dec-injective : (m n : ℕ) → dec m ≡ dec n → m ≡ n
dec-injective m n e = sym (value-dec m) ∙ ap value e ∙ value-dec n

pub value-dec3 : (n : ℕ) → value (dec3 n) ≡ n
unfolding dec3
value-dec3 n = value-zeros (3 - length (dec n)) (dec n) ∙ value-dec n

pub dec3-injective : (m n : ℕ) → dec3 m ≡ dec3 n → m ≡ n
dec3-injective m n e = sym (value-dec3 m) ∙ ap value e ∙ value-dec3 n

dec_runs : dec 250 ≡ lit "250"
unfolding dec
dec_runs = refl

dec3_runs : dec3 7 ≡ lit "007"
unfolding dec3
dec3_runs = refl

digits_last :
    (f n : ℕ) → (front : Str) × (d : ℕ) × (d < 10) × (digits (suc f) n ≡ front ++ (48 + d) ∷ [])
unfolding digits
digits_last f n = elim (Bool-cases (ltb n 10)) [
  | inl small ↦ ([], n, ltb→lt n 10 small, rw small refl)
  | inr large ↦ (digits f (n / 10), n % 10, omega arith, rw large refl)
]

-- A number prints with a digit at its end.
pub dec-last : (n : ℕ) → (front : Str) × (d : ℕ) × (d < 10) × (dec n ≡ front ++ (48 + d) ∷ [])
unfolding dec
dec-last n = digits_last n n
