-- ===== src/Machine/Trace.antt =====
-- Counting the calls of a trace.
use manta.Prelude.{ℕ, ◌+◌, Bool, [], ◌∷◌, if◌then◌else◌}
use manta.Machine.{Op, Trace}

-- The number of the calls that `p` picks, by what they are and whether they succeeded.
unfoldable pub count : (Op → Bool → Bool) → Trace → ℕ
count p [] = 0
count p (e ∷ tr) = (if p e.op e.done then 1 else 0) + count p tr
