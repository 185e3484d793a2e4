-- ===== src/Storage.antt =====
-- emulator/src/gpu/storage.h and storage.cpp: the device memory. The singleton is a value that the
-- operations take and return; a write that throws keeps the bytes that it had stored before.
pub mod Bytes
pub mod Words
pub mod Throws
pub mod Safe
use red_o_lator.Base.{
  ℕ, zero, suc, ◌+◌, ◌-◌, ◌*◌, ◌/◌, ◌%◌, ◌^◌, Bool, true, false, List, [], ◌∷◌, u8, u16, u32, u64,
  ◌<<<◌, ◌>>>◌, bit_or, get_elem?, set, replicate, ltb, if◌then◌else◌, Result, ok, fail, Fault,
  or_fail, ◌>>=◌, ◌>>◌,
}

pub record Storage : Type 0 where
  pub size : ℕ
  pub data_ : List ℕ

-- `make_unique<uint8_t[]>` sets every byte to 0.
unfoldable pub init : ℕ → Storage
init buffer_size = record { size = buffer_size; data_ = replicate buffer_size 0 }

unfoldable pub validate_addr_safe : Storage → ℕ → Bool
validate_addr_safe storage addr = ltb addr storage.size

unfoldable pub read_byte : Storage → ℕ → Result ℕ
read_byte storage addr = or_fail (get_elem? storage.data_ addr) Fault.undefined

-- The rounds of the loop of `read_data` from an address.
unfoldable pub read_rounds : Storage → Bool → ℕ → ℕ → Result (List ℕ)
read_rounds storage safe zero cur_addr = ok []
read_rounds storage safe (suc rounds) cur_addr =
    let rest = read_rounds storage safe rounds (cur_addr + 1) in
    if validate_addr_safe storage cur_addr
    then (do byte ← read_byte storage cur_addr; bytes ← rest; ok (byte ∷ bytes))
    else if safe
    then ok []
    else fail Fault.runtime_error

-- The end of the range wraps at 2 ^ 64; a range that wraps has no rounds.
unfoldable pub read_data : Storage → ℕ → ℕ → ℕ → Bool → Result (List ℕ)
read_data storage address offset byte_size safe =
    let addr = u64 (address + offset) in
    read_rounds storage safe (u64 (addr + byte_size) - addr) addr

-- `result[0]` to `result[3]`, with no check that they are there.
unfoldable pub join_bytes : List ℕ → Result ℕ
join_bytes (a ∷ b ∷ c ∷ d ∷ rest) =
    ok (bit_or (bit_or (bit_or (u32 (a <<< 24)) (u32 (b <<< 16))) (u32 (c <<< 8))) d)
join_bytes _ = fail Fault.undefined

unfoldable pub read_4_bytes : Storage → ℕ → ℕ → Result ℕ
read_4_bytes storage address offset = do
  bytes ← read_data storage address offset 4 false
  join_bytes bytes

-- A write: the storage after it, and whether it threw.
pub record Written : Type 0 where
  pub storage : Storage
  pub thrown : Bool

unfoldable pub write_data8 : Storage → ℕ → ℕ → ℕ → Written
write_data8 storage addr offset value =
    let cur_addr = u64 (addr + offset) in
    if validate_addr_safe storage cur_addr
    then record {
      storage = record storage { data_ = set storage.data_ cur_addr (u8 value) };
      thrown = false;
    }
    else record { storage = storage; thrown = true }

-- The second write happens only if the first one did not throw.
unfoldable pub then_write : Written → (Storage → Written) → Written
then_write first second = if first.thrown then first else second first.storage

unfoldable pub write_data16 : Storage → ℕ → ℕ → ℕ → Written
write_data16 storage addr offset value =
    then_write (write_data8 storage addr offset (u8 (value >>> 8)))
      (λ next. write_data8 next addr (u32 (offset + 1)) (u8 value))

unfoldable pub write_data32 : Storage → ℕ → ℕ → ℕ → Written
write_data32 storage addr offset value =
    then_write (write_data16 storage addr offset (u16 (value >>> 16)))
      (λ next. write_data16 next addr (u32 (offset + 2)) (u16 value))

unfoldable pub write_data64 : Storage → ℕ → ℕ → ℕ → Written
write_data64 storage addr offset value =
    then_write (write_data32 storage addr offset (u32 (value >>> 32)))
      (λ next. write_data32 next addr (u32 (offset + 4)) (u32 value))
