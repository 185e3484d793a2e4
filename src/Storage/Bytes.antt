-- ===== src/Storage/Bytes.antt =====
-- What one byte's write does, and the bytes of a word.
use red_o_lator.Base.{
  ℕ, suc, ◌+◌, ◌*◌, ◌/◌, ◌%◌, ◌^◌, ◌<◌, ◌≡◌, ◌≢◌, ◌∙◌, arith, refl, sym, ap, Bool, false, List, [],
  ◌∷◌, u8, u16, u32, u64, bit_or, length, get_elem?, set, some, length-set, get_elem?-set_self,
  get_elem?-set_ne, lt→ltb, ok,
}
use red_o_lator.Base.BitLaws.{bit_or_fields}
use red_o_lator.Storage.{
  Storage, Written, write_data8, write_data16, write_data32, then_write, validate_addr_safe,
  read_rounds, read_byte, join_bytes,
}

-- The size is the number of bytes, as `init` makes it.
abbrev pub IsSized : Storage → Type 0
IsSized storage = storage.size ≡ length storage.data_

-- The storage with a byte replaced.
unfoldable pub put : Storage → ℕ → ℕ → Storage
put storage addr value = record storage { data_ = set storage.data_ addr value }

pub put-IsSized :
    (storage : Storage) (addr value : ℕ) → IsSized storage → IsSized (put storage addr value)
unfolding put
put-IsSized storage addr value h = h ∙ sym (length-set storage.data_ addr value)

pub put-size : (s : Storage) (i v : ℕ) {j : ℕ} → j < s.size → j < (put s i v).size
unfolding put
put-size s i v h = h

-- A write that does not throw.
abbrev pub written : Storage → Written
written storage = record { storage = storage; thrown = false }

pub write_data8_lem :
    (storage : Storage) (addr offset value cell byte : ℕ)
    → u64 (addr + offset) ≡ cell
    → cell < storage.size
    → u8 value ≡ byte
    → write_data8 storage addr offset value ≡ written (put storage cell byte)
unfolding write_data8 put validate_addr_safe
write_data8_lem storage addr offset value cell byte e h f = rw (e, f, lt→ltb _ _ h) refl

pub write_data16_lem :
    (storage : Storage) (addr offset value cell high low : ℕ)
    → u64 (addr + offset) ≡ cell
    → u64 (addr + u32 (offset + 1)) ≡ cell + 1
    → cell + 1 < storage.size
    → u8 (u8 (value / 2 ^ 8)) ≡ high
    → u8 (u8 value) ≡ low
    → write_data16 storage addr offset value ≡ written (put (put storage cell high) (cell + 1) low)
unfolding write_data16 then_write
write_data16_lem storage addr offset value cell high low e f h p q =
    rw (write_data8_lem storage addr offset (u8 (value / 2 ^ 8)) cell high e (omega arith) p) (
      write_data8_lem (put storage cell high) addr (u32 (offset + 1)) (u8 value) (cell + 1) low f
        (put-size storage cell high h) q)

-- The four bytes of a word, put one after the other.
unfoldable pub put_word : Storage → ℕ → ℕ → Storage
put_word storage cell value =
    put
      (put (put (put storage cell (value / 2 ^ 24)) (cell + 1) (value / 2 ^ 16 % 256))
        (cell + 1 + 1) (value / 2 ^ 8 % 256))
      (cell + 1 + 1 + 1) (value % 256)

pub put_word-size : (s : Storage) (cell value : ℕ) → (put_word s cell value).size ≡ s.size
unfolding put_word put
put_word-size s cell value = refl

pub write_data32_lem :
    (storage : Storage) (addr offset value : ℕ)
    → addr + offset + 3 < storage.size
    → storage.size < 2 ^ 64
    → offset + 3 < 2 ^ 32
    → value < 2 ^ 32
    → write_data32 storage addr offset value ≡ written (put_word storage (addr + offset) value)
unfolding write_data32 then_write put_word
write_data32_lem storage addr offset value h k l m =
    let cell = addr + offset in
    rw
      (write_data16_lem storage addr offset (u16 (value / 2 ^ 16)) cell (value / 2 ^ 24)
        (value / 2 ^ 16 % 256) (omega arith) (omega arith) (omega arith) (omega arith)
        (omega arith))
      (write_data16_lem (put (put storage cell (value / 2 ^ 24)) (cell + 1) (value / 2 ^ 16 % 256))
        addr (u32 (offset + 2)) (u16 value) (cell + 1 + 1) (value / 2 ^ 8 % 256) (value % 256)
        (omega arith) (omega arith) (put-size _ _ _ (put-size storage _ _ (omega arith)))
        (omega arith) (omega arith))

pub merge : (k q r n m : ℕ) → r < 2 ^ k → n ≡ q * 2 ^ k → m ≡ r → bit_or n m ≡ q * 2 ^ k + r
merge k q r n m h e f = rw (e, f) (bit_or_fields k q r h)

-- Four bytes, most significant first, joined.
pub join_bytes_lem :
    (a b c d : ℕ)
    → a < 256
    → b < 256
    → c < 256
    → d < 256
    → join_bytes (a ∷ b ∷ c ∷ d ∷ []) ≡ ok (((a * 256 + b) * 256 + c) * 256 + d)
unfolding join_bytes
join_bytes_lem a b c d h k l m = ap ok (rw (two, three, four) (omega arith))
  where
    two : bit_or (u32 (a * 2 ^ 24)) (u32 (b * 2 ^ 16)) ≡ a * 2 ^ 24 + b * 2 ^ 16
    two = merge 24 a (b * 2 ^ 16) _ _ (omega arith) (omega arith) (omega arith)

    three :
        bit_or (a * 2 ^ 24 + b * 2 ^ 16) (u32 (c * 2 ^ 8)) ≡ (a * 2 ^ 8 + b) * 2 ^ 16 + c * 2 ^ 8
    three = merge 16 (a * 2 ^ 8 + b) (c * 2 ^ 8) _ _ (omega arith) (omega arith) (omega arith)

    four :
        bit_or ((a * 2 ^ 8 + b) * 2 ^ 16 + c * 2 ^ 8) d ≡ ((a * 2 ^ 8 + b) * 2 ^ 8 + c) * 2 ^ 8 + d
    four = merge 8 ((a * 2 ^ 8 + b) * 2 ^ 8 + c) d _ _ (omega arith) (omega arith) refl

pub get_put_self :
    (s : Storage) (i v : ℕ) → IsSized s → i < s.size → get_elem? (put s i v).data_ i ≡ some v
unfolding put
get_put_self s i v sized h = get_elem?-set_self s.data_ i v (omega (arith, sized))

pub get_put_ne :
    (s : Storage) (i v j : ℕ) → i ≢ j → get_elem? (put s i v).data_ j ≡ get_elem? s.data_ j
unfolding put
get_put_ne s i v j h = get_elem?-set_ne s.data_ v h

-- One round of the reading loop.
pub read_rounds_step :
    (s : Storage) (safe : Bool) (rounds cell byte : ℕ) (rest : List ℕ)
    → cell < s.size
    → get_elem? s.data_ cell ≡ some byte
    → read_rounds s safe rounds (cell + 1) ≡ ok rest
    → read_rounds s safe (suc rounds) cell ≡ ok (byte ∷ rest)
unfolding read_rounds validate_addr_safe read_byte
read_rounds_step s safe rounds cell byte rest h e f = rw (lt→ltb _ _ h, e, f) refl
