-- ===== src/Prelude/Decimals.antt =====
-- `std::to_string` of an unsigned integer of at most 64 bits, which has 20 digits at most.
use Prim.Native.Nat.{ℕ, zero, suc, ◌+◌, ◌/◌, ◌%◌}
use mathlib.Core.List.{[], ◌∷◌}
use polymarket_live_maker.Prelude.Tests.{◌==◌, if◌then◌else◌}
use polymarket_live_maker.Prelude.ByteStrings.{Bytes}

unfoldable pub to_string_loop : ℕ → ℕ → Bytes → Bytes
to_string_loop zero n out = out
to_string_loop (suc room) n out =
    let digits = (b'0' + n % 10) ∷ out in
    let longer = to_string_loop room (n / 10) digits in if n / 10 == 0 then digits else longer

abbrev pub to_string : ℕ → Bytes
to_string n = to_string_loop 20 n []
