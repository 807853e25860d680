-- ===== src/Firecracker/Mac.antt =====
-- The MAC address of a guest, of `writeVMConfig`.
use manta.Prelude.{
  ℕ, ◌+◌, ◌-◌, ◌*◌, ◌/◌, ◌%◌, ◌<◌, ◌≡◌, sym, ap, ◌∙◌, [], ◌∷◌, ◌++◌, arith, ltb, drop,
  if◌then◌else◌,
}
use manta.Text.{Str, lit}

abbrev pub hex_digit : ℕ → ℕ
hex_digit d = if ltb d 10 then 48 + d else 55 + d

-- %02X of a byte
abbrev pub hex2 : ℕ → Str
hex2 n = hex_digit (n / 16) ∷ hex_digit (n % 16) ∷ []

-- fmt.Sprintf("06:00:AC:10:%02X:%02X", (subnet>>8)&0xFF, subnet&0xFF)
unfoldable pub guest_mac : ℕ → Str
guest_mac subnet = lit "06:00:AC:10:" ++ (hex2 ((subnet / 256) % 256) ++ 58 ∷ hex2 (subnet % 256))

digit_of : ℕ → ℕ
digit_of c = if ltb c 58 then c - 48 else c - 55

digit_of-hex_digit : (d : ℕ) → d < 16 → digit_of (hex_digit d) ≡ d
unfolding digit_of
digit_of-hex_digit d h = ground arith

-- The subnet that an address of this form has.
subnet_at : Str → ℕ
subnet_at (a ∷ b ∷ colon ∷ c ∷ d ∷ []) =
    digit_of a * 4096 + digit_of b * 256 + digit_of c * 16 + digit_of d
subnet_at _ = 0

subnet_of-guest_mac : (n : ℕ) → n < 65536 → subnet_at (drop 12 (guest_mac n)) ≡ n
unfolding guest_mac subnet_at
subnet_of-guest_mac n h =
    rw
      (
        digit_of-hex_digit (((n / 256) % 256) / 16) (omega arith),
        digit_of-hex_digit (((n / 256) % 256) % 16) (omega arith),
        digit_of-hex_digit ((n % 256) / 16) (omega arith),
        digit_of-hex_digit ((n % 256) % 16) (omega arith),
      )
      (omega arith)

-- Subnets below 65536 have MAC addresses of their own.
pub guest_mac-injective : (m n : ℕ) → m < 65536 → n < 65536 → guest_mac m ≡ guest_mac n → m ≡ n
guest_mac-injective m n hm hn same =
    sym (subnet_of-guest_mac m hm) ∙ ap (λ s. subnet_at (drop 12 s)) same ∙ subnet_of-guest_mac n hn
