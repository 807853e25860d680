-- ===== src/Startup/Masquerade.antt =====
-- The one rule for the guests' networks that `ensureGlobalMasquerade` keeps in iptables. It is called
-- twice, by the preflight and by `main`.
use manta.Prelude.{
  ℕ, ◌+◌, ◌≤◌, ◌≡◌, refl, ◌∙◌, sym, inl, inr, Bool, true, false, ◌&&◌, List, [], ◌∷◌, arith, ltb,
  Bool-cases,
}
use manta.Text.{Str, lit, str_eq, str_eq_iff, is_empty}
use manta.Text.Trim.{trim_space}
use manta.Machine.{Op, Env, Error, World, Trace, Result, ok, err, check, run}
use manta.Machine.Trace.{count}
use manta.Startup.Preflight.{masquerade, ensure_rule, ensure_global_masquerade}

args_eq : List Str → List Str → Bool
args_eq [] [] = true
args_eq [] (b ∷ t) = false
args_eq (a ∷ s) [] = false
args_eq (a ∷ s) (b ∷ t) = str_eq a b && args_eq s t

-- A call that has added the rule of the interface.
abbrev pub is_added : Str → Op → Bool → Bool
unfolding args_eq
is_added iface (run args) true = args_eq args (masquerade (lit "-A") iface)
is_added iface _ _ = false

-- How often the rule stands in the table, which held it `n` times at first.
abbrev pub rules : ℕ → Str → Trace → ℕ
rules n iface tr = n + count (is_added iface) tr

-- `iptables -C` succeeds exactly when the rule stands in the table, and `-A` adds it.
pub record IsIptables (env : Env) (n : ℕ) (iface : Str) : Type 0 where
  pub finds :
      (tr : Trace) → env.succeeds tr (run (masquerade (lit "-C") iface)) ≡ ltb 0 (rules n iface tr)

abbrev Kept : ℕ → Str → Result (Unit {0}) → World → Type 0
Kept n iface (ok u) w = rules n iface w.trace ≡ 1
Kept n iface (err e) w = rules n iface w.trace ≤ 1

module _ (env : Env) (n : ℕ) (iface : Str) (table : IsIptables env n iface) where
  rule-Kept :
      (w : World)
      → rules n iface w.trace ≤ 1
      → Kept n iface (ensure_rule env iface w).0 (ensure_rule env iface w).1
  unfolding count str_eq args_eq
  rule-Kept w h = elim (Bool-cases (env.succeeds w.trace (run (masquerade (lit "-C") iface)))) [
    | inl there ↦
        let found : ltb 0 (rules n iface w.trace) ≡ true = sym (table.finds w.trace) ∙ there in
        rw there (ground arith)
    | inr absent ↦
        let none_found : ltb 0 (rules n iface w.trace) ≡ false =
          sym (table.finds w.trace) ∙ absent in
        rw absent (
          added none_found (
            env.succeeds (record { op = run (masquerade (lit "-C") iface); done = false } ∷ w.trace)
              (run (masquerade (lit "-A") iface))))
  ]
    where
      added :
          ltb 0 (rules n iface w.trace) ≡ false
          → (done : Bool)
          → let w' = record w {
            trace =
                record { op = run (masquerade (lit "-A") iface); done = done }
                ∷ record { op = run (masquerade (lit "-C") iface); done = false }
                ∷ w.trace;
          } in
            Kept n iface
              (check done Error.add_masquerade w').0
              (check done Error.add_masquerade w').1
      added e true = let same = (str_eq_iff iface iface).1 refl in rw same (ground arith)
      added e false = ground arith

  -- Where iptables finds and adds the rule as it should, and the table holds it at most once, a call
  -- of `ensureGlobalMasquerade` that succeeds leaves it there exactly once, and one that fails leaves
  -- it at most once: the second call of the startup adds nothing.
  pub ensure_global_masquerade_once :
      (w : World)
      → rules n iface w.trace ≤ 1
      → let w' = (ensure_global_masquerade env iface w).1 in
        (rules n iface w'.trace ≤ 1)
        × ((ensure_global_masquerade env iface w).0 ≡ ok tt → rules n iface w'.trace ≡ 1)
  unfolding ensure_global_masquerade
  ensure_global_masquerade_once w h = elim (Bool-cases (is_empty (trim_space iface))) [
    | inl blank ↦ rw blank (h, λ e. cc)
    | inr named ↦
        rw named (kept (ensure_rule env iface w).0 (ensure_rule env iface w).1 (rule-Kept w h))
  ]
    where
      kept :
          (r : Result (Unit {0})) (w' : World)
          → Kept n iface r w'
          → (rules n iface w'.trace ≤ 1) × (r ≡ ok tt → rules n iface w'.trace ≡ 1)
      kept (ok u) w' k = (omega arith, λ e. k)
      kept (err x) w' k = (k, λ e. cc)
