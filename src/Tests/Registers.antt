-- ===== src/Tests/Registers.antt =====
-- Reads and writes of registers, and counts of bits.
use red_o_lator.Base.{◌≡◌, ◌≢◌, arith, true, get_elem?, ok, ℕ}
use red_o_lator.Base.{none, ◌>>=◌}
use red_o_lator.Util.{to_uin64_t}
use red_o_lator.Wavefront.{read_operand, write_operand_to_gpr}
use red_o_lator.Wavefront.Operands.{sgprs, read_operand-write_operand_to_gpr}
use red_o_lator.Register.Flags.{flag_vskip, get_flag, set_flag, get_flag-set_flag}
use red_o_lator.Util.{bit_count32, bit_count64}
use red_o_lator.Util.Fields.{popcount}
use red_o_lator.Util.BitCount.{bit_count-popcount}
use red_o_lator.Wavefront.{Wavefront, set_sgpr_pair, read_sgpr_pair}
use red_o_lator.Wavefront.Registers.{read_sgpr_pair-set_sgpr_pair}
use red_o_lator.Tests.{some_mode, small_wavefront}

get_flag-set_flag_example : get_flag flag_vskip (set_flag flag_vskip some_mode true) ≡ true
get_flag-set_flag_example = get_flag-set_flag flag_vskip flag_vskip some_mode true

read_sgpr_pair-set_sgpr_pair_example :
    (wf' : Wavefront) × (set_sgpr_pair small_wavefront 4 0x123456789 ≡ ok wf')
    × (read_sgpr_pair wf' 4 ≡ ok 0x123456789)
    × ((i : ℕ)
        → i ≢ 4
        → i ≢ 5
        → get_elem? wf'.scalar_reg_file i ≡ get_elem? small_wavefront.scalar_reg_file i)
unfolding small_wavefront
read_sgpr_pair-set_sgpr_pair_example =
    read_sgpr_pair-set_sgpr_pair small_wavefront 4 0x123456789 (omega arith) (omega arith)
      (omega arith)

read_operand-write_operand_to_gpr_example :
    (wf' : Wavefront) × (write_operand_to_gpr small_wavefront (sgprs 6 2) 0x123456789 ≡ ok wf')
    × ((read_operand wf' (sgprs 6 2) none >>= to_uin64_t) ≡ ok 0x123456789)
    × ((i : ℕ)
        → i ≢ 6
        → i ≢ 7
        → get_elem? wf'.scalar_reg_file i ≡ get_elem? small_wavefront.scalar_reg_file i)
unfolding small_wavefront
read_operand-write_operand_to_gpr_example =
    read_operand-write_operand_to_gpr small_wavefront 6 0x123456789 (omega arith) (omega arith)
      (omega arith)

bit_count-popcount_example :
    (bit_count64 0xf0f1 ≡ popcount 64 0xf0f1) × (bit_count32 0xf0f1 ≡ popcount 32 0xf0f1)
bit_count-popcount_example = bit_count-popcount 0xf0f1 (omega arith)
