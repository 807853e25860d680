-- ===== src/Server/Exec/Timeout.antt =====
-- The timeout of a command: Go's `time.Duration` arithmetic on int64.
use manta.Prelude.{
  ℕ, zero, suc, ◌-◌, ◌*◌, ◌/◌, ◌%◌, ◌≤◌, ◌<◌, ◌≡◌, ap, true, arith, ltb, if◌then◌else◌,
}
use manta.Prelude.Int.{ℤ, pos, negsuc}

-- An int64 from its 64 bits.
abbrev pub from_bits : ℕ → ℤ
from_bits x = if ltb x 9223372036854775808 then pos x else negsuc (18446744073709551615 - x)

-- `time.Duration(req.TimeoutMs) * time.Millisecond` where the request gives one.
unfoldable pub exec_timeout : ℤ → ℤ → ℤ
exec_timeout default (negsuc n) = default
exec_timeout default (pos n) =
    if ltb 0 n then from_bits ((n * 1000000) % 18446744073709551616) else default

abbrev pub neg : ℕ → ℤ
neg zero = pos 0
neg (suc n) = negsuc n

-- `Duration.Milliseconds`, a division that truncates toward zero.
unfoldable pub milliseconds : ℤ → ℤ
milliseconds (pos n) = pos (n / 1000000)
milliseconds (negsuc n) = neg (suc n / 1000000)

-- A timeout up to 9223372036854 ms reaches the agent as it was asked for.
pub exec_timeout-milliseconds :
    (default : ℤ) (ms : ℕ)
    → 0 < ms
    → ms ≤ 9223372036854
    → milliseconds (exec_timeout default (pos ms)) ≡ pos ms
unfolding exec_timeout milliseconds
exec_timeout-milliseconds default ms h b =
    let fits : (ms * 1000000) % 18446744073709551616 ≡ ms * 1000000 = omega arith in
    let positive : ltb 0 ms ≡ true = ground arith in
    let small : ltb (ms * 1000000) 9223372036854775808 ≡ true = ground arith in
    rw (positive, fits, small) (ap pos (omega arith))
