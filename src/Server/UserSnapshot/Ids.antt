-- ===== src/Server/UserSnapshot/Ids.antt =====
-- `normalizeSnapshotID` of cmd/server/user_snapshot.go: an id of a user snapshot is a name of a
-- directory, and no path out of it.
use manta.Prelude.{
  ℕ, ◌≤◌, ◌≡◌, ◌≢◌, refl, ap, subst, ◌⊎◌, inl, inr, Bool, true, false, ◌&&◌, ◌||◌, [], ◌∷◌, String,
  arith, All, length, leb, ◌==◌, if◌then◌else◌, Bool-cases,
}
use manta.Text.{Str, lit, is_empty}
use manta.Text.Trim.{trim_space}

-- [A-Za-z0-9]
abbrev pub is_alphanumeric : ℕ → Bool
is_alphanumeric c = leb 65 c && leb c 90 || leb 97 c && leb c 122 || leb 48 c && leb c 57

-- [A-Za-z0-9._-]
abbrev pub is_id_byte : ℕ → Bool
is_id_byte c = is_alphanumeric c || c == 46 || c == 95 || c == 45

unfoldable pub all_id_bytes : Str → Bool
all_id_bytes [] = true
all_id_bytes (c ∷ s) = is_id_byte c && all_id_bytes s

-- ^[A-Za-z0-9][A-Za-z0-9._-]{0,127}$
unfoldable pub matches_id : Str → Bool
matches_id [] = false
matches_id (c ∷ s) = is_alphanumeric c && (all_id_bytes s && leb (length s) 127)

-- inl is the error.
unfoldable pub normalize_snapshot_id : Str → String ⊎ Str
normalize_snapshot_id raw =
    let id = trim_space raw in
    if is_empty id
    then inl "snapshot_id is required"
    else if matches_id id
    then inr id
    else inl "invalid snapshot_id"

both : (a b : Bool) → a && b ≡ true → (a ≡ true) × (b ≡ true)
both true b e = (refl, e)
both false b e = cc

slash_no_id : {c : ℕ} → is_id_byte c ≡ true → c ≢ 47
slash_no_id e q = let bad : is_id_byte 47 ≡ true = subst (λ x. is_id_byte x ≡ true) q e in cc

slash_no_letter : {c : ℕ} → is_alphanumeric c ≡ true → c ≢ 47
slash_no_letter e q =
    let bad : is_alphanumeric 47 ≡ true = subst (λ x. is_alphanumeric x ≡ true) q e in cc

dot_no_letter : {c : ℕ} → is_alphanumeric c ≡ true → c ≢ 46
dot_no_letter e q =
    let bad : is_alphanumeric 46 ≡ true = subst (λ x. is_alphanumeric x ≡ true) q e in cc

no_slash : (s : Str) → all_id_bytes s ≡ true → All (λ c. c ≢ 47) s
unfolding all_id_bytes
no_slash [] e = tt
no_slash (c ∷ s) e = let (here, later) = both _ _ e in (slash_no_id here, no_slash s later)

abbrev first_byte : Str → ℕ
first_byte [] = 0
first_byte (c ∷ s) = c

abbrev IsDirectoryName : Str → Type 0
IsDirectoryName s =
    All (λ c. c ≢ 47) s × (s ≢ lit ".") × (s ≢ lit "..") × (length s ≤ 128) × (s ≢ [])

matched : (s : Str) → matches_id s ≡ true → IsDirectoryName s
unfolding matches_id
matched [] e = cc
matched (c ∷ s) e =
    let (first, rest) = both _ _ e in
    let (bytes, short) = both _ _ rest in
    (
      (slash_no_letter first, no_slash s bytes),
      λ q. dot_no_letter first (ap first_byte q),
      λ q. dot_no_letter first (ap first_byte q),
      ground arith,
      λ q. cc,
    )

-- An id that is accepted names a directory right below the one for user snapshots: it has no slash,
-- is not empty, `.` or `..`, and has 128 bytes at most.
pub normalize_snapshot_id_lem :
    (raw id : Str)
    → normalize_snapshot_id raw ≡ inr id
    → All (λ c. c ≢ 47) id × (id ≢ lit ".") × (id ≢ lit "..") × (length id ≤ 128) × (id ≢ [])
unfolding normalize_snapshot_id
normalize_snapshot_id_lem raw id e = elim (Bool-cases (matches_id (trim_space raw))) [
  | inl good ↦
      subst IsDirectoryName
        (accepted (is_empty (trim_space raw))
          (subst (λ b. chosen b (is_empty (trim_space raw)) ≡ inr id) good e))
        (matched (trim_space raw) good)
  | inr bad ↦ absurd (
      refused (is_empty (trim_space raw))
        (subst (λ b. chosen b (is_empty (trim_space raw)) ≡ inr id) bad e))
]
  where
    chosen : Bool → Bool → String ⊎ Str
    chosen matches blank =
        if blank
        then inl "snapshot_id is required"
        else if matches
        then inr (trim_space raw)
        else inl "invalid snapshot_id"

    accepted : (blank : Bool) → chosen true blank ≡ inr id → trim_space raw ≡ id
    accepted true q = cc
    accepted false q = cc

    refused : (blank : Bool) → chosen false blank ≡ inr id → ⊥
    refused true q = cc
    refused false q = cc
