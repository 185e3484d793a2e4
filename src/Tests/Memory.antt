-- ===== src/Tests/Memory.antt =====
-- Runs of the storage.
use red_o_lator.Base.{◌≡◌, ◌<◌, ◌⊎◌, ℕ, arith, refl, false, not, ltb, get_elem?, ok}
use red_o_lator.Storage.{Storage, init, write_data32, read_4_bytes}
use red_o_lator.Storage.Words.{read_4_bytes-write_data32}
use red_o_lator.Storage.Throws.{write_data32-thrown}

abbrev sixteen_bytes : Storage
unfolding init
sixteen_bytes = init 16

read_4_bytes-write_data32_example :
    let w = write_data32 sixteen_bytes 4 2 0xdeadbeef in
    (w.thrown ≡ false)
    × (read_4_bytes w.storage 4 2 ≡ ok 0xdeadbeef)
    × ((j : ℕ) → j < 6 ⊎ 9 < j → get_elem? w.storage.data_ j ≡ get_elem? sixteen_bytes.data_ j)
unfolding sixteen_bytes
read_4_bytes-write_data32_example =
    read_4_bytes-write_data32 sixteen_bytes 4 2 0xdeadbeef refl (omega arith) (omega arith)
      (omega arith) (omega arith)

write_data32-thrown_example :
    let w = write_data32 sixteen_bytes 12 2 0xdeadbeef in
    (w.thrown ≡ not (ltb 17 16)) × (w.storage.size ≡ 16)
unfolding sixteen_bytes
write_data32-thrown_example =
    write_data32-thrown sixteen_bytes 12 2 0xdeadbeef (omega arith) (omega arith)
