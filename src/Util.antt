-- ===== src/Util.antt =====
-- emulator/src/commons/util.h and util.cpp: bit counting and reversal by masks, sign extension,
-- and the conversions between machine words and lists of registers or bytes.
pub mod Fields
pub mod BitCount
use red_o_lator.Base.{
  ℕ, ◌+◌, ◌-◌, ◌*◌, ◌/◌, ◌%◌, ◌^◌, bit_and, bit_or, List, [], ◌∷◌, u32, u64, ◌<<<◌, ◌>>>◌, wrap_sub,
  ℤ, to_int, Result, ok, fail, Fault, ◌>>=◌,
}

unfoldable pub bit_count32 : ℕ → ℕ
bit_count32 n =
    let a = wrap_sub 32 n (bit_and (n >>> 1) 0x55555555) in
    let b = u32 (bit_and a 0x33333333 + bit_and (a >>> 2) 0x33333333) in
    u32 (bit_and (u32 (b + b >>> 4)) 0x0f0f0f0f * 0x01010101) >>> 24

unfoldable pub bit_count64 : ℕ → ℕ
bit_count64 n =
    let a = wrap_sub 64 n (bit_and (n >>> 1) 0x5555555555555555) in
    let b = u64 (bit_and a 0x3333333333333333 + bit_and (a >>> 2) 0x3333333333333333) in
    u64 (bit_and (u64 (b + b >>> 4)) 0x0f0f0f0f0f0f0f0f * 0x0101010101010101) >>> 56

-- One line of `rev_bit`: `((n & high) >> k) | ((n & low) << k)`, in a word of w bits.
abbrev pub swap_fields : ℕ → ℕ → ℕ → ℕ → ℕ → ℕ
swap_fields w k high low n = bit_or (bit_and n high >>> k) (bit_and n low <<< k % 2 ^ w)

unfoldable pub rev_bit32 : ℕ → ℕ
rev_bit32 n =
    let a = bit_or (n >>> 16) (u32 (n <<< 16)) in
    let b = swap_fields 32 8 0xff00ff00 0x00ff00ff a in
    let c = swap_fields 32 4 0xf0f0f0f0 0x0f0f0f0f b in
    let d = swap_fields 32 2 0xcccccccc 0x33333333 c in swap_fields 32 1 0xaaaaaaaa 0x55555555 d

unfoldable pub rev_bit64 : ℕ → ℕ
rev_bit64 n =
    let a = bit_or (n >>> 32) (u64 (n <<< 32)) in
    let b = swap_fields 64 16 0xffff0000ffff0000 0x0000ffff0000ffff a in
    let c = swap_fields 64 8 0xff00ff00ff00ff00 0x00ff00ff00ff00ff b in
    let d = swap_fields 64 4 0xf0f0f0f0f0f0f0f0 0x0f0f0f0f0f0f0f0f c in
    let e = swap_fields 64 2 0xcccccccccccccccc 0x3333333333333333 d in
    swap_fields 64 1 0xaaaaaaaaaaaaaaaa 0x5555555555555555 e

-- The argument is the cast `(int8_t) x` or `(int16_t) x`; the result is an int32_t.
unfoldable pub sign_ext8 : ℕ → ℤ
sign_ext8 x = to_int 8 x

unfoldable pub sign_ext16 : ℕ → ℤ
sign_ext16 x = to_int 16 x

-- The most significant word comes first; words after the second are not read.
unfoldable pub to_uin64_t : List ℕ → Result ℕ
to_uin64_t [] = fail Fault.assertion
to_uin64_t (lsb ∷ []) = ok lsb
to_uin64_t (msb ∷ lsb ∷ rest) = ok (bit_or (u64 (msb <<< 32)) lsb)

-- Four bytes, most significant first, make one word.
unfoldable pub to_uint32_v : List ℕ → Result (List ℕ)
to_uint32_v [] = ok []
to_uint32_v (a ∷ b ∷ c ∷ d ∷ rest) = do
  words ← to_uint32_v rest
  ok (bit_or (bit_or (bit_or (u32 (a <<< 24)) (u32 (b <<< 16))) (u32 (c <<< 8))) d ∷ words)
to_uint32_v _ = fail Fault.assertion
