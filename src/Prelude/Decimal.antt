-- ===== src/Prelude/Decimal.antt =====
-- `str(n)` for a natural number.
use Prim.Native.Nat.{ℕ, zero, suc, ◌/◌, ◌%◌}
use Prim.Native.String.{String, ◌++◌}
use prism_agent.Prelude.Tests.{if◌then◌else◌, ltb}

abbrev digit : ℕ → String
digit zero = "0"
digit (suc zero) = "1"
digit (suc (suc zero)) = "2"
digit (suc (suc (suc zero))) = "3"
digit (suc (suc (suc (suc zero)))) = "4"
digit (suc (suc (suc (suc (suc zero))))) = "5"
digit (suc (suc (suc (suc (suc (suc zero)))))) = "6"
digit (suc (suc (suc (suc (suc (suc (suc zero))))))) = "7"
digit (suc (suc (suc (suc (suc (suc (suc (suc zero)))))))) = "8"
digit _ = "9"

-- A number has at most as many digits as it counts, and one more.
unfoldable pub digits : ℕ → ℕ → String
digits zero n = ""
digits (suc fuel) n =
    let front = digits fuel (n / 10) in if ltb n 10 then digit n else front ++ digit (n % 10)

unfoldable pub decimal : ℕ → String
unfolding digits
decimal n = digits (suc n) n
