-- ===== src/Alu/Vop1/Table.antt =====
-- alu_vop1.cpp: the table of `run_v_screen_partition_4se_b32`.
use red_o_lator.Base.{ℕ, List, [], ◌∷◌}

unfoldable pub screen_partition_table : List ℕ
screen_partition_table =
    0x1 ∷ 0x3 ∷ 0x7 ∷ 0xf ∷ 0x5 ∷ 0xf ∷ 0xf ∷ 0xf ∷ 0x7 ∷ 0xf ∷ 0xf ∷ 0xf ∷ 0xf ∷ 0xf ∷ 0xf ∷ 0xf
    ∷ 0xf ∷ 0x2 ∷ 0x6 ∷ 0xe ∷ 0xf ∷ 0xa ∷ 0xf ∷ 0xf ∷ 0xf ∷ 0xb ∷ 0xf ∷ 0xf ∷ 0xf ∷ 0xf ∷ 0xf ∷ 0xf
    ∷ 0xd ∷ 0xf ∷ 0x4 ∷ 0xc ∷ 0xf ∷ 0xf ∷ 0x5 ∷ 0xf ∷ 0xf ∷ 0xf ∷ 0xd ∷ 0xf ∷ 0xf ∷ 0xf ∷ 0xf ∷ 0xf
    ∷ 0x9 ∷ 0xb ∷ 0xf ∷ 0x8 ∷ 0xf ∷ 0xf ∷ 0xf ∷ 0xa ∷ 0xf ∷ 0xf ∷ 0xf ∷ 0xe ∷ 0xf ∷ 0xf ∷ 0xf ∷ 0xf
    ∷ 0xf ∷ 0xf ∷ 0xf ∷ 0xf ∷ 0x4 ∷ 0xc ∷ 0xd ∷ 0xf ∷ 0x6 ∷ 0xf ∷ 0xf ∷ 0xf ∷ 0xe ∷ 0xf ∷ 0xf ∷ 0xf
    ∷ 0xf ∷ 0xf ∷ 0xf ∷ 0xf ∷ 0xf ∷ 0x8 ∷ 0x9 ∷ 0xb ∷ 0xf ∷ 0x9 ∷ 0x9 ∷ 0xf ∷ 0xf ∷ 0xd ∷ 0xf ∷ 0xf
    ∷ 0xf ∷ 0xf ∷ 0xf ∷ 0xf ∷ 0x7 ∷ 0xf ∷ 0x1 ∷ 0x3 ∷ 0xf ∷ 0xf ∷ 0x9 ∷ 0xf ∷ 0xf ∷ 0xf ∷ 0xb ∷ 0xf
    ∷ 0xf ∷ 0xf ∷ 0xf ∷ 0xf ∷ 0x6 ∷ 0xe ∷ 0xf ∷ 0x2 ∷ 0x6 ∷ 0xf ∷ 0xf ∷ 0x6 ∷ 0xf ∷ 0xf ∷ 0xf ∷ 0x7
    ∷ 0xb ∷ 0xf ∷ 0xf ∷ 0xf ∷ 0xf ∷ 0xf ∷ 0xf ∷ 0xf ∷ 0x2 ∷ 0x3 ∷ 0xb ∷ 0xf ∷ 0xa ∷ 0xf ∷ 0xf ∷ 0xf
    ∷ 0xf ∷ 0x7 ∷ 0xf ∷ 0xf ∷ 0xf ∷ 0xf ∷ 0xf ∷ 0xf ∷ 0xf ∷ 0x1 ∷ 0x9 ∷ 0xd ∷ 0xf ∷ 0x5 ∷ 0xf ∷ 0xf
    ∷ 0xf ∷ 0xf ∷ 0xe ∷ 0xf ∷ 0xf ∷ 0xf ∷ 0xf ∷ 0xf ∷ 0xe ∷ 0xf ∷ 0x8 ∷ 0xc ∷ 0xf ∷ 0xf ∷ 0xa ∷ 0xf
    ∷ 0xf ∷ 0xf ∷ 0xf ∷ 0xd ∷ 0xf ∷ 0xf ∷ 0xf ∷ 0xf ∷ 0x6 ∷ 0x7 ∷ 0xf ∷ 0x4 ∷ 0xf ∷ 0xf ∷ 0xf ∷ 0x5
    ∷ 0x9 ∷ 0xf ∷ 0xf ∷ 0xf ∷ 0xd ∷ 0xf ∷ 0xf ∷ 0xf ∷ 0xf ∷ 0xf ∷ 0xf ∷ 0xf ∷ 0x8 ∷ 0xc ∷ 0xe ∷ 0xf
    ∷ 0xf ∷ 0x6 ∷ 0x6 ∷ 0xf ∷ 0xf ∷ 0xe ∷ 0xf ∷ 0xf ∷ 0xf ∷ 0xf ∷ 0xf ∷ 0xf ∷ 0xf ∷ 0x4 ∷ 0x6 ∷ 0x7
    ∷ 0xf ∷ 0xf ∷ 0x6 ∷ 0xf ∷ 0xf ∷ 0xf ∷ 0x7 ∷ 0xf ∷ 0xf ∷ 0xf ∷ 0xf ∷ 0xf ∷ 0xb ∷ 0xf ∷ 0x2 ∷ 0x3
    ∷ 0x9 ∷ 0xf ∷ 0xf ∷ 0x9 ∷ 0xf ∷ 0xf ∷ 0xf ∷ 0xb ∷ 0xf ∷ 0xf ∷ 0xf ∷ 0xf ∷ 0x9 ∷ 0xd ∷ 0xf ∷ 0x1
    ∷ []
