-- ===== src/Alu/Vop3/Bytes.antt =====
-- alu_vop3.cpp: the instructions that loop over the four bytes of a word. `x << (j * 8)` on an `int` reaches
-- the sign bit in the last round.
use red_o_lator.Base.{
  ℕ, ◌+◌, ◌-◌, ◌*◌, u8, u32, u64, ◌<<<◌, ◌>>>◌, bit_and, bit_or, bit_not, wrap_sub, to_int, of_int,
  i32, pos, abs, ◌-ℤ◌, if◌then◌else◌, leb, ◌==◌, ◌!=◌, for_step,
}
use red_o_lator.Wavefront.VectorStates.{Vop3Lane}
use red_o_lator.Alu.Sop2.Arith.{wrap32}

-- `(x >> (j * 8)) & 0xff`
abbrev pub byte : ℕ → ℕ → ℕ
byte x j = bit_and (x >>> (j * 8)) 0xff

-- A small `int` shifted to byte j, as a `uint64_t`.
abbrev pub int_at : ℕ → ℕ → ℕ
int_at x j = of_int 64 (wrap32 (pos (x <<< (j * 8))))

lerp_round : ℕ → ℕ → ℕ → ℕ → ℕ → ℕ
lerp_round src0 src1 src2 j vdst =
    let s2 = bit_and (src2 >>> (j * 8)) 1 in
    bit_or (bit_and vdst (bit_not 32 (u32 (255 <<< (j * 8)))))
      (int_at ((byte src0 j + byte src1 j + s2) >>> 1) j)

unfoldable pub run_v_lerp_u8 : Vop3Lane → ℕ → Vop3Lane
unfolding lerp_round for_step
run_v_lerp_u8 lane src2 = record lane {
  vdst = for_step 1 4 0 (lerp_round lane.src0 lane.src1 src2) lane.vdst;
}

-- The difference is cut down to an `int8_t` before its absolute value is taken.
msad_round : ℕ → ℕ → ℕ → ℕ → ℕ
unfolding abs
msad_round src0 src1 j vdst =
    if byte src1 j != 0
    then u64 (vdst + of_int 64 (abs (to_int 8 (wrap_sub 8 (byte src0 j) (byte src1 j)))))
    else vdst

unfoldable pub run_v_msad_u8 : Vop3Lane → ℕ → Vop3Lane
unfolding msad_round for_step
run_v_msad_u8 lane src2 = record lane {
  vdst = for_step 1 4 0 (msad_round lane.src0 lane.src1) src2;
}

perm_byte : ℕ → ℕ → ℕ
perm_byte qword choice =
    if leb 13 choice
    then 0xff
    else if choice == 12
    then 0
    else if leb 8 choice
    then u8 (u64 (0xff * qword) >>> ((choice - 8) * 16 + 15))
    else bit_and (qword >>> (choice * 8)) 0xff

perm_round : ℕ → ℕ → ℕ → ℕ → ℕ
perm_round qword src2 j vdst = bit_or vdst (int_at (perm_byte qword (byte src2 j)) j)

unfoldable pub run_v_perm_b32 : Vop3Lane → ℕ → Vop3Lane
unfolding perm_round perm_byte for_step
run_v_perm_b32 lane src2 =
    let qword = bit_or (u64 (lane.src0 <<< 32)) lane.src1 in
    record lane { vdst = for_step 1 4 0 (perm_round qword src2) 0 }

sad_hi_round : ℕ → ℕ → ℕ → ℕ → ℕ
unfolding abs
sad_hi_round src0 src1 j vdst =
    let difference = i32 (wrap_sub 32 (byte src0 j) (byte src1 j)) in
    u64 (vdst + of_int 64 (abs difference) <<< 16)

unfoldable pub run_v_sad_hi_u8 : Vop3Lane → ℕ → Vop3Lane
unfolding sad_hi_round for_step
run_v_sad_hi_u8 lane src2 = record lane {
  vdst = for_step 1 4 0 (sad_hi_round lane.src0 lane.src1) src2;
}

unfoldable pub run_v_sad_u16 : Vop3Lane → ℕ → Vop3Lane
unfolding abs ◌-ℤ◌
run_v_sad_u16 lane src2 =
    let diff1 = i32 (bit_and lane.src0 0xffff) -ℤ i32 (bit_and lane.src1 0xffff) in
    let diff2 = wrap32 (i32 (lane.src0 >>> 16) -ℤ i32 (lane.src1 >>> 16)) in
    record lane { vdst = u64 (u64 (src2 + of_int 64 (abs diff1)) + of_int 64 (wrap32 (abs diff2))) }

unfoldable pub run_v_sad_u32 : Vop3Lane → ℕ → Vop3Lane
unfolding abs
run_v_sad_u32 lane src2 =
    let diff = i32 (wrap_sub 64 lane.src0 lane.src1) in
    record lane { vdst = u64 (src2 + of_int 64 (wrap32 (abs diff))) }

unfoldable pub sad_round : ℕ → ℕ → ℕ → ℕ → ℕ
unfolding abs ◌-ℤ◌
sad_round src0 src1 j vdst = u64 (vdst + of_int 64 (abs (pos (byte src0 j) -ℤ pos (byte src1 j))))

unfoldable pub run_v_sad_u8 : Vop3Lane → ℕ → Vop3Lane
unfolding sad_round for_step
run_v_sad_u8 lane src2 = record lane { vdst = for_step 1 4 0 (sad_round lane.src0 lane.src1) src2 }
