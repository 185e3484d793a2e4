-- ===== src/Base/Word.antt =====
-- Unsigned words of C++ as native numbers below 2 ^ w, their casts and their bit operations.
use Prim.Native.Nat.{ℕ, ◌+◌, ◌-◌, ◌*◌, ◌/◌, ◌%◌, ◌^◌, bit_and}
use mathlib.Core.Bool.{Bool}
use red_o_lator.Base.Tests.{ltb, ◌!=◌, if◌then◌else◌}
use red_o_lator.Base.Int.{ℤ, pos, negsuc}

abbrev pub u8 : ℕ → ℕ
u8 n = n % 2 ^ 8

abbrev pub u16 : ℕ → ℕ
u16 n = n % 2 ^ 16

abbrev pub u32 : ℕ → ℕ
u32 n = n % 2 ^ 32

abbrev pub u64 : ℕ → ℕ
u64 n = n % 2 ^ 64

-- `x >> k` on an unsigned word; `x << k` is this product, cut off by the caller's cast.
infixl 72 ◌<<<◌ ◌>>>◌
abbrev pub ◌<<<◌ : ℕ → ℕ → ℕ
x <<< k = x * 2 ^ k

abbrev pub ◌>>>◌ : ℕ → ℕ → ℕ
x >>> k = x / 2 ^ k

-- `~x` on a word of w bits.
abbrev pub bit_not : ℕ → ℕ → ℕ
bit_not w x = 2 ^ w - 1 - x % 2 ^ w

-- `a - b` on words of w bits.
abbrev pub wrap_sub : ℕ → ℕ → ℕ → ℕ
wrap_sub w a b = (a % 2 ^ w + 2 ^ w - b % 2 ^ w) % 2 ^ w

-- `static_cast<intw_t>(x)`: the integer that the low w bits stand for in two's complement.
abbrev pub to_int : ℕ → ℕ → ℤ
to_int w x = if ltb (x % 2 ^ w) (2 ^ w / 2) then pos (x % 2 ^ w) else negsuc (2 ^ w - 1 - x % 2 ^ w)

abbrev pub i32 : ℕ → ℤ
i32 x = to_int 32 x

abbrev pub i64 : ℕ → ℤ
i64 x = to_int 64 x

-- A signed value stored in an unsigned word of w bits.
abbrev pub of_int : ℕ → ℤ → ℕ
of_int w (pos n) = n % 2 ^ w
of_int w (negsuc n) = 2 ^ w - 1 - n % 2 ^ w

-- common/common/utils/bit-utils.hpp
unfoldable pub get_bit : ℕ → ℕ → Bool
get_bit n value = bit_and value (1 <<< n) != 0
