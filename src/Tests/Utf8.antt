-- ===== src/Tests/Utf8.antt =====
-- Texts that are UTF-8, and texts that are not.
use manta.Prelude.{◌≡◌, refl, true, false, [], ◌∷◌, none, some}
use manta.Prelude.Int.{pos}
use manta.Text.{lit}
use manta.Text.Utf8.{is_utf8, all_utf8, rest_is_utf8, follow}
use manta.Rpc.Utf8.{valid_response}

plain : is_utf8 (lit "ls -l") ≡ true
unfolding is_utf8 rest_is_utf8 follow
plain = refl

-- U+00E9, U+20AC and U+1F600.
longer :
    all_utf8 ((195 ∷ 169 ∷ []) ∷ (226 ∷ 130 ∷ 172 ∷ []) ∷ (240 ∷ 159 ∷ 152 ∷ 128 ∷ []) ∷ []) ≡ true
unfolding all_utf8 is_utf8 rest_is_utf8 follow
longer = refl

-- A byte that is no first byte, a text that is cut off, and a surrogate.
stray : is_utf8 (255 ∷ []) ≡ false
unfolding is_utf8 rest_is_utf8
stray = refl

cut_off : is_utf8 (195 ∷ []) ≡ false
unfolding is_utf8 rest_is_utf8 follow
cut_off = refl

surrogate : is_utf8 (237 ∷ 160 ∷ 128 ∷ []) ≡ false
unfolding is_utf8 rest_is_utf8 follow
surrogate = refl

-- The output of a command is what the command wrote, UTF-8 or not.
output_not_valid :
    valid_response (record {
      ok = true;
      error = [];
      ping = none;
      exec = some (record { exit_code = pos 0; stdout = 255 ∷ []; stderr = []; timed_out = false });
      net = none;
    })
    ≡ false
unfolding is_utf8 rest_is_utf8
output_not_valid = refl
