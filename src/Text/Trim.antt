-- ===== src/Text/Trim.antt =====
-- strings.TrimSpace on the bytes of a string: it drops the white space of Unicode in its UTF-8
-- encoding from both ends.
use mathlib.Core.List.{reverse, reverse-append, reverse-reverse}
use manta.Prelude.{
  ℕ, zero, suc, ◌≤◌, ◌≡◌, refl, sym, ap, ◌∙◌, subst, ◌⊎◌, inl, inr, Bool, arith, ◌&&◌, ◌||◌, [],
  ◌∷◌, ◌++◌, leb, ◌==◌, if◌then◌else◌,
}
use manta.Text.{Str, lit}

is_ascii_space : ℕ → Bool
is_ascii_space c = leb 9 c && leb c 13 || c == 32

-- U+0085 and U+00A0.
is_space2 : ℕ → ℕ → Bool
is_space2 a b = a == 0xc2 && (b == 0x85 || b == 0xa0)

-- U+1680, U+2000 to U+200A, U+2028, U+2029, U+202F, U+205F and U+3000.
is_space3 : ℕ → ℕ → ℕ → Bool
is_space3 a b c =
    a == 0xe1 && b == 0x9a && c == 0x80
    || a == 0xe2 && b == 0x80 && (leb 0x80 c && leb c 0x8a || c == 0xa8 || c == 0xa9 || c == 0xaf)
    || a == 0xe2 && b == 0x81 && c == 0x9f
    || a == 0xe3 && b == 0x80 && c == 0x80

-- The length of the white space rune that a string starts with, 0 if it starts with none.
space_width : Str → ℕ
unfolding is_ascii_space is_space2 is_space3
space_width [] = 0
space_width (a ∷ []) = if is_ascii_space a then 1 else 0
space_width (a ∷ b ∷ []) = if is_ascii_space a then 1 else if is_space2 a b then 2 else 0
space_width (a ∷ b ∷ c ∷ s) =
    if is_ascii_space a then 1 else if is_space2 a b then 2 else if is_space3 a b c then 3 else 0

-- The same of the last rune, on the reversed string.
space_width_last : Str → ℕ
unfolding is_ascii_space is_space2 is_space3
space_width_last [] = 0
space_width_last (a ∷ []) = if is_ascii_space a then 1 else 0
space_width_last (b ∷ a ∷ []) = if is_ascii_space b then 1 else if is_space2 a b then 2 else 0
space_width_last (c ∷ b ∷ a ∷ s) =
    if is_ascii_space c then 1 else if is_space2 b c then 2 else if is_space3 a b c then 3 else 0

-- Drops runes as long as `width` finds one; the number is what is left of the rune being dropped.
strip : (Str → ℕ) → ℕ → Str → Str
strip width k [] = []
strip width (suc k) (c ∷ s) = strip width k s
strip width zero (c ∷ s) = elim (width (c ∷ s)) [ zero ↦ c ∷ s | suc k ↦ strip width k s ]

unfoldable pub trim_space : Str → Str
unfolding strip space_width space_width_last
trim_space s = reverse (strip space_width_last 0 (reverse (strip space_width 0 s)))

pub trim_space-empty : trim_space [] ≡ []
unfolding trim_space
trim_space-empty = refl

-- Nothing is left, or a string that does not start with white space.
strip-stops :
    (width : Str → ℕ) (k : ℕ) (s : Str) → (strip width k s ≡ []) ⊎ (width (strip width k s) ≡ 0)
unfolding strip
strip-stops width k [] = inl refl
strip-stops width (suc k) (c ∷ s) = strip-stops width k s
strip-stops width zero (c ∷ s) = stops (λ k. strip-stops width k s) (width (c ∷ s)) refl
  where
    stops :
        ((k : ℕ) → (strip width k s ≡ []) ⊎ (width (strip width k s) ≡ 0))
        → (n : ℕ) → width (c ∷ s) ≡ n
        → let r : Str = elim n [ zero ↦ c ∷ s | suc k ↦ strip width k s ] in
          (r ≡ []) ⊎ (width r ≡ 0)
    stops later zero e = inr e
    stops later (suc k) e = later k

strip-suffix : (width : Str → ℕ) (k : ℕ) (s : Str) → (y : Str) × (s ≡ y ++ strip width k s)
unfolding strip
strip-suffix width k [] = ([], refl)
strip-suffix width (suc k) (c ∷ s) =
    let (y, e) = strip-suffix width k s in (c ∷ y, ap (λ x. c ∷ x) e)
strip-suffix width zero (c ∷ s) = suffix (λ k. strip-suffix width k s) (width (c ∷ s))
  where
    suffix :
        ((k : ℕ) → (y : Str) × (s ≡ y ++ strip width k s))
        → (n : ℕ) → (y : Str) × (c ∷ s ≡ y ++ elim n [ zero ↦ c ∷ s | suc k ↦ strip width k s ])
    suffix later zero = ([], refl)
    suffix later (suc k) = let (y, e) = later k in (c ∷ y, ap (λ x. c ∷ x) e)

strip-fixed : (width : Str → ℕ) (s : Str) → width s ≡ 0 → strip width 0 s ≡ s
unfolding strip
strip-fixed width [] e = refl
strip-fixed width (c ∷ s) e = ap (λ n. elim n [ zero ↦ c ∷ s | suc k ↦ strip width k s ]) e

-- A prefix starts with white space only if the whole does.
prefix_width : (t x : Str) → space_width (t ++ x) ≡ 0 → space_width t ≡ 0
unfolding space_width
prefix_width [] x e = refl
prefix_width (a ∷ []) [] e = e
prefix_width (a ∷ []) (b ∷ []) e = ground arith
prefix_width (a ∷ []) (b ∷ c ∷ x) e = ground arith
prefix_width (a ∷ b ∷ []) [] e = e
prefix_width (a ∷ b ∷ []) (c ∷ x) e = ground arith
prefix_width (a ∷ b ∷ c ∷ t) x e = e

starts : (width : Str → ℕ) → width [] ≡ 0 → {s : Str} → (s ≡ []) ⊎ (width s ≡ 0) → width s ≡ 0
starts width z (inl e) = ap width e ∙ z
starts width z (inr e) = e

-- What is trimmed has nothing left to trim.
pub trim_space-trim_space : (s : Str) → trim_space (trim_space s) ≡ trim_space s
unfolding trim_space space_width space_width_last
trim_space-trim_space s =
    let u = strip space_width 0 s in
    let v = strip space_width_last 0 (reverse u) in
    let (y, cut) = strip-suffix space_width_last 0 (reverse u) in
    let whole : u ≡ reverse v ++ reverse y =
      sym (reverse-reverse u) ∙ (ap reverse cut ∙ reverse-append y v) in
    let front : space_width (reverse v) ≡ 0 = prefix_width (reverse v) (reverse y) (
      subst (λ z. space_width z ≡ 0) whole
        (starts space_width refl (strip-stops space_width 0 s))) in
    let back : space_width_last v ≡ 0 =
      starts space_width_last refl (strip-stops space_width_last 0 (reverse u)) in
    ap (λ z. reverse (strip space_width_last 0 (reverse z)))
      (strip-fixed space_width (reverse v) front)
    ∙ (ap (λ z. reverse (strip space_width_last 0 z)) (reverse-reverse v)
        ∙ ap reverse (strip-fixed space_width_last v back))

trim_space_runs :
    trim_space (32 ∷ 9 ∷ 0xc2 ∷ 0xa0 ∷ lit "a b" ++ 0xe3 ∷ 0x80 ∷ 0x80 ∷ 10 ∷ []) ≡ lit "a b"
unfolding trim_space
trim_space_runs = refl

-- A string that neither starts nor ends with white space stays as it is.
trim_space-fixed :
    (s : Str) → space_width s ≡ 0 → space_width_last (reverse s) ≡ 0 → trim_space s ≡ s
unfolding trim_space
trim_space-fixed s front back =
    ap (λ z. reverse (strip space_width_last 0 (reverse z))) (strip-fixed space_width s front)
    ∙ (ap reverse (strip-fixed space_width_last (reverse s) back) ∙ reverse-reverse s)

-- So does one whose first and last byte are visible ASCII characters.
abbrev pub IsVisible : ℕ → Type 0
IsVisible c = (33 ≤ c) × (c ≤ 126)

first_width : (c : ℕ) (s : Str) → IsVisible c → space_width (c ∷ s) ≡ 0
unfolding space_width is_ascii_space is_space2 is_space3
first_width c [] (l, u) = ground arith
first_width c (b ∷ []) (l, u) = ground arith
first_width c (b ∷ a ∷ s) (l, u) = ground arith

last_width : (c : ℕ) (s : Str) → IsVisible c → space_width_last (c ∷ s) ≡ 0
unfolding space_width_last is_ascii_space is_space2 is_space3
last_width c [] (l, u) = ground arith
last_width c (b ∷ []) (l, u) = ground arith
last_width c (b ∷ a ∷ s) (l, u) = ground arith

pub trim_space-IsVisible :
    (c : ℕ) (s : Str) (d : ℕ)
    → IsVisible c
    → IsVisible d
    → trim_space (c ∷ s ++ d ∷ []) ≡ c ∷ s ++ d ∷ []
trim_space-IsVisible c s d hc hd =
    trim_space-fixed (c ∷ s ++ d ∷ []) (first_width c (s ++ d ∷ []) hc) (
      subst (λ z. space_width_last z ≡ 0) (sym (reverse-append (c ∷ s) (d ∷ [])))
        (last_width d (reverse (c ∷ s)) hd))
