-- ===== src/Prelude/Round.antt =====
-- Rounding of quotients.
use Prim.Native.Nat.{ℕ, ◌+◌, ◌*◌, ◌/◌, ◌%◌}
use mathlib.Core.Bool.{◌&&◌, ◌||◌}
use erp_security.Prelude.Tests.{ltb, eqb, if◌then◌else◌}

-- Rounds n / d half to even.
unfoldable pub round_div : ℕ → ℕ → ℕ
round_div n d =
    if ltb (2 * (n % d)) d || (eqb (2 * (n % d)) d && eqb (n / d % 2) 0) then n / d else n / d + 1
