-- ===== src/Text.antt =====
-- Go strings as their bytes, and what the program uses of `strings` and `fmt`.
pub mod Trim
pub mod Decimal
pub mod Order
pub mod Utf8
use Prim.Native.Char.{code}
use manta.Prelude.{
  ℕ, zero, suc, ◌+◌, ◌-◌, ◌≡◌, refl, ◌↔◌, Bool, true, false, ◌&&◌, ◌||◌, List, [], ◌∷◌, ◌++◌,
  String, arith, leb, ◌==◌, if◌then◌else◌,
}
use mathlib.Core.List.{reverse}

abbrev pub Str : Type 0
Str = List ℕ

-- A literal of the source, which is ASCII.
abbrev pub lit : String → Str
lit String.[] = []
lit (String.◌∷◌ c s) = code c ∷ lit s

unfoldable pub str_eq : Str → Str → Bool
str_eq [] [] = true
str_eq [] (b ∷ t) = false
str_eq (a ∷ s) [] = false
str_eq (a ∷ s) (b ∷ t) = a == b && str_eq s t

pub str_eq_iff : (s t : Str) → (str_eq s t ≡ true) ↔ (s ≡ t)
unfolding str_eq
str_eq_iff [] [] = (λ _. refl, λ _. refl)
str_eq_iff [] (b ∷ t) = (λ e. cc, λ e. cc)
str_eq_iff (a ∷ s) [] = (λ e. cc, λ e. cc)
str_eq_iff (a ∷ s) (b ∷ t) =
    let (to, from) = str_eq_iff s t in (λ e. ground (arith, to), λ e. ground (arith, from))

abbrev pub is_empty : Str → Bool
is_empty [] = true
is_empty (b ∷ s) = false

-- strings.HasPrefix
unfoldable pub has_prefix : Str → Str → Bool
has_prefix s [] = true
has_prefix [] (b ∷ t) = false
has_prefix (a ∷ s) (b ∷ t) = a == b && has_prefix s t

-- filepath.Join of a clean path and a name without a slash.
unfoldable pub join : Str → String → Str
join dir name = dir ++ (47 ∷ lit name)
