-- ===== src/Server/Exec/Mode.antt =====
-- The `switch` of `handleExec` that chooses between the shell and a direct run.
use manta.Prelude.{
  ◌≡◌, ◌≢◌, refl, subst, Bool, true, false, not, List, [], ◌∷◌, Option, none, some, String,
  if◌then◌else◌,
}
use manta.Text.{Str, is_empty}

pub data Choice : Type 0 where
  refuse : String → Choice
  run : Bool → Choice

abbrev pub is_set : Option Bool → Bool → Bool
is_set none b = false
is_set (some true) b = b
is_set (some false) b = not b

abbrev pub no_args : List Str → Bool
no_args [] = true
no_args (a ∷ argv) = false

-- `cmd` is trimmed already.
unfoldable pub select_mode : Str → List Str → Option Bool → Choice
select_mode cmd argv use_shell =
    if not (no_args argv)
    then (if not (is_empty cmd)
        then refuse "provide either cmd or argv, not both"
        else if is_set use_shell true
        then refuse "use_shell=true is not valid with argv"
        else run false)
    else if not (is_empty cmd)
    then (if is_set use_shell false
        then refuse "use_shell=false is not valid with cmd; provide argv instead"
        else run true)
    else refuse "cmd or argv is required"

-- The requests that are well formed: exactly one of the command and the arguments is given, and an
-- explicit `use_shell` says which.
pub data Asks : Str → List Str → Option Bool → Bool → Type 0 where
  shell :
      (cmd : Str) (use_shell : Option Bool)
      → cmd ≢ []
      → use_shell ≢ some false
      → Asks cmd [] use_shell true
  direct :
      (a : Str) (argv : List Str) (use_shell : Option Bool)
      → use_shell ≢ some true
      → Asks [] (a ∷ argv) use_shell false

run_mode : {a b : Bool} → run a ≡ run b → a ≡ b
run_mode e = cc

refuse_run : {text : String} {m : Bool} {A : Type 0} → refuse text ≡ run m → A
refuse_run e = cc

as_asked :
    (cmd : Str) (argv : List Str) (use_shell : Option Bool) (mode : Bool)
    → select_mode cmd argv use_shell ≡ run mode
    → Asks cmd argv use_shell mode
unfolding select_mode
as_asked [] [] use_shell mode e = refuse_run e
as_asked (c ∷ cmd) [] none mode e =
    subst (Asks (c ∷ cmd) [] none) (run_mode e) (shell (c ∷ cmd) none (λ q. cc) (λ q. cc))
as_asked (c ∷ cmd) [] (some true) mode e =
    subst (Asks (c ∷ cmd) [] (some true)) (run_mode e)
      (shell (c ∷ cmd) (some true) (λ q. cc) (λ q. cc))
as_asked (c ∷ cmd) [] (some false) mode e = refuse_run e
as_asked [] (a ∷ argv) none mode e =
    subst (Asks [] (a ∷ argv) none) (run_mode e) (direct a argv none (λ q. cc))
as_asked [] (a ∷ argv) (some false) mode e =
    subst (Asks [] (a ∷ argv) (some false)) (run_mode e) (direct a argv (some false) (λ q. cc))
as_asked [] (a ∷ argv) (some true) mode e = refuse_run e
as_asked (c ∷ cmd) (a ∷ argv) use_shell mode e = refuse_run e

runs_asked :
    {cmd : Str} {argv : List Str} {use_shell : Option Bool} {mode : Bool}
    → Asks cmd argv use_shell mode
    → select_mode cmd argv use_shell ≡ run mode
unfolding select_mode
runs_asked (shell [] use_shell given allowed) = absurd (given refl)
runs_asked (shell (c ∷ cmd) none given allowed) = refl
runs_asked (shell (c ∷ cmd) (some true) given allowed) = refl
runs_asked (shell (c ∷ cmd) (some false) given allowed) = absurd (allowed refl)
runs_asked (direct a argv none allowed) = refl
runs_asked (direct a argv (some true) allowed) = absurd (allowed refl)
runs_asked (direct a argv (some false) allowed) = refl

-- A request runs in a mode exactly when it is well formed and asks for that mode.
pub select_mode-Asks :
    (cmd : Str) (argv : List Str) (use_shell : Option Bool) (mode : Bool)
    → (select_mode cmd argv use_shell ≡ run mode → Asks cmd argv use_shell mode)
      × (Asks cmd argv use_shell mode → select_mode cmd argv use_shell ≡ run mode)
select_mode-Asks cmd argv use_shell mode = (as_asked cmd argv use_shell mode, runs_asked)
