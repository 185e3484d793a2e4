-- ===== src/Executor/Quads.antt =====
-- Words of 64 bits in the storage, as the executor writes and reads them.
use red_o_lator.Base.{
  ℕ, zero, suc, ◌+◌, ◌-◌, ◌*◌, ◌/◌, ◌%◌, ◌^◌, ◌<◌, ◌≡◌, ◌⊎◌, ◌∙◌, inl, inr, arith, refl, ap, false,
  List, [], ◌∷◌, u32, u64, get_elem?, ok, bit_or,
}
use red_o_lator.Storage.{
  Storage, Written, write_data64, then_write, read_data, read_rounds, read_byte, validate_addr_safe,
}
use red_o_lator.Storage.Bytes.{
  IsSized, written, put_word, put_word-size, put-IsSized, merge, write_data32_lem, read_rounds_step,
}
use red_o_lator.Storage.Words.{byte0, byte1, byte2, byte3, others, room}
use red_o_lator.Executor.{join_8_bytes, read_8_bytes}

-- A byte joined to those above it.
push :
    (j k q r : ℕ)
    → 2 ^ j ≡ 2 ^ k * 256
    → 0 < 2 ^ k
    → r < 256
    → bit_or (q * 2 ^ j) (r * 2 ^ k) ≡ (q * 256 + r) * 2 ^ k
push j k q r e positive h =
    let sum : q * 2 ^ j + r * 2 ^ k ≡ (q * 256 + r) * 2 ^ k = rw e (omega arith) in
    let below : r * 2 ^ k < 2 ^ k * 256 = grind arith in
    let low : r * 2 ^ k < 2 ^ j = rw e below in merge j q (r * 2 ^ k) _ _ low refl refl ∙ sum

join_8_bytes_lem :
    (a b c d e f g h : ℕ)
    → b < 256
    → c < 256
    → d < 256
    → e < 256
    → f < 256
    → g < 256
    → h < 256
    → join_8_bytes (a ∷ b ∷ c ∷ d ∷ e ∷ f ∷ g ∷ h ∷ [])
      ≡ ok (((((((a * 256 + b) * 256 + c) * 256 + d) * 256 + e) * 256 + f) * 256 + g) * 256 + h)
unfolding join_8_bytes
join_8_bytes_lem a b c d e f g h p q r s t u v =
    rw
      (
        push 56 48 a b (omega arith) (omega arith) p,
        push 48 40 (a * 256 + b) c (omega arith) (omega arith) q,
        push 40 32 ((a * 256 + b) * 256 + c) d (omega arith) (omega arith) r,
        push 32 24 (((a * 256 + b) * 256 + c) * 256 + d) e (omega arith) (omega arith) s,
        push 24 16 ((((a * 256 + b) * 256 + c) * 256 + d) * 256 + e) f (omega arith) (omega arith)
            t,
        push 16 8 (((((a * 256 + b) * 256 + c) * 256 + d) * 256 + e) * 256 + f) g (omega arith)
            (omega arith) u,
      )
      (ap ok (
        merge 8 ((((((a * 256 + b) * 256 + c) * 256 + d) * 256 + e) * 256 + f) * 256 + g) h _ _ v
          refl refl))

-- A storage with its eight bytes, put one word after the other.
module _ (s : Storage) (sized : IsSized s) (cell high low : ℕ) (inside : cell + 7 < s.size) where
  first : Storage
  first = put_word s cell high

  both : Storage
  both = put_word first (cell + 4) low

  first-IsSized : IsSized first
  unfolding first put_word
  first-IsSized =
      put-IsSized _ _ _ (put-IsSized _ _ _ (put-IsSized _ _ _ (put-IsSized s _ _ sized)))

  both-IsSized : IsSized both
  unfolding both put_word
  both-IsSized =
      put-IsSized _ _ _
        (put-IsSized _ _ _ (put-IsSized _ _ _ (put-IsSized first _ _ first-IsSized)))

  second_inside : cell + 4 + 3 < first.size
  unfolding first
  second_inside = room s sized cell high (omega arith) (cell + 4 + 3) (omega arith)

  fits : (j : ℕ) → j < s.size → j < both.size
  unfolding both first
  fits j h =
      room (put_word s cell high) first-IsSized (cell + 4) low second_inside j
        (room s sized cell high (omega arith) j h)

  kept : (j : ℕ) → j < cell + 4 → get_elem? both.data_ j ≡ get_elem? first.data_ j
  unfolding both
  kept j h = others first first-IsSized (cell + 4) low second_inside j (inl h)

  eight : List ℕ
  eight =
      high / 2 ^ 24
      ∷ high / 2 ^ 16 % 256
      ∷ high / 2 ^ 8 % 256
      ∷ high % 256
      ∷ low / 2 ^ 24
      ∷ low / 2 ^ 16 % 256
      ∷ low / 2 ^ 8 % 256
      ∷ low % 256
      ∷ []

  upper :
      (rest : List ℕ)
      → read_rounds both false 4 (cell + 4) ≡ ok rest
      → read_rounds both false 8 cell
        ≡ ok (high / 2 ^ 24 ∷ high / 2 ^ 16 % 256 ∷ high / 2 ^ 8 % 256 ∷ high % 256 ∷ rest)
  unfolding first
  upper rest h =
      let four : cell + 1 + 1 + 1 + 1 ≡ cell + 4 = omega arith in
      read_rounds_step both false 7 cell _ _ (fits _ (omega arith))
        (kept cell (omega arith) ∙ byte0 s sized cell high (omega arith))
        (read_rounds_step both false 6 (cell + 1) _ _ (fits _ (omega arith))
          (kept (cell + 1) (omega arith) ∙ byte1 s sized cell high (omega arith))
          (read_rounds_step both false 5 (cell + 1 + 1) _ _ (fits _ (omega arith))
            (kept (cell + 1 + 1) (omega arith) ∙ byte2 s sized cell high (omega arith))
            (read_rounds_step both false 4 (cell + 1 + 1 + 1) _ _ (fits _ (omega arith))
              (kept (cell + 1 + 1 + 1) (omega arith) ∙ byte3 s sized cell high (omega arith))
              (rw four h))))

  lower :
      read_rounds both false 4 (cell + 4)
      ≡ ok (low / 2 ^ 24 ∷ low / 2 ^ 16 % 256 ∷ low / 2 ^ 8 % 256 ∷ low % 256 ∷ [])
  unfolding both read_rounds
  lower =
      read_rounds_step both false 3 (cell + 4) _ _ (fits _ (omega arith))
        (byte0 first first-IsSized (cell + 4) low second_inside)
        (read_rounds_step both false 2 (cell + 4 + 1) _ _ (fits _ (omega arith))
          (byte1 first first-IsSized (cell + 4) low second_inside)
          (read_rounds_step both false 1 (cell + 4 + 1 + 1) _ _ (fits _ (omega arith))
            (byte2 first first-IsSized (cell + 4) low second_inside)
            (read_rounds_step both false 0 (cell + 4 + 1 + 1 + 1) _ _ (fits _ (omega arith))
              (byte3 first first-IsSized (cell + 4) low second_inside) refl)))

  all_eight : read_rounds both false 8 cell ≡ ok eight
  unfolding eight
  all_eight = upper _ lower

  elsewhere : (j : ℕ) → j < cell ⊎ cell + 7 < j → get_elem? both.data_ j ≡ get_elem? s.data_ j
  unfolding both first
  elsewhere j h =
      others (put_word s cell high) first-IsSized (cell + 4) low second_inside j (away h)
      ∙ others s sized cell high (omega arith) j (near h)
    where
      away : j < cell ⊎ cell + 7 < j → j < cell + 4 ⊎ cell + 4 + 3 < j
      away (inl p) = inl (omega arith)
      away (inr p) = inr (omega arith)

      near : j < cell ⊎ cell + 7 < j → j < cell ⊎ cell + 3 < j
      near (inl p) = inl p
      near (inr p) = inr (omega arith)

-- The bytes of the two halves of a word are the word.
halves :
    (value : ℕ)
    → value < 2 ^ 64
    → let high = value / 2 ^ 32 in
      let low = value % 2 ^ 32 in
      join_8_bytes (
        high / 2 ^ 24
        ∷ high / 2 ^ 16 % 256
        ∷ high / 2 ^ 8 % 256
        ∷ high % 256
        ∷ low / 2 ^ 24
        ∷ low / 2 ^ 16 % 256
        ∷ low / 2 ^ 8 % 256
        ∷ low % 256
        ∷ [])
      ≡ ok value
halves value small =
    let high = value / 2 ^ 32 in
    let low = value % 2 ^ 32 in
    let top : ((high / 2 ^ 24 * 256 + high / 2 ^ 16 % 256) * 256 + high / 2 ^ 8 % 256) * 256
          + high % 256
        ≡ high =
      omega arith in
    let sum : (((high * 256 + low / 2 ^ 24) * 256 + low / 2 ^ 16 % 256) * 256 + low / 2 ^ 8 % 256)
            * 256
          + low % 256
        ≡ value =
      omega arith in
    join_8_bytes_lem _ _ _ _ _ _ _ _ (omega arith) (omega arith) (omega arith) (omega arith)
      (omega arith) (omega arith) (omega arith)
    ∙ ap ok (rw top sum)

-- What the write of a value makes of the storage.
pub record Quad (s : Storage) (cell value : ℕ) (w : Written) : Type 0 where
  pub after : Storage
  pub wrote : w ≡ written after
  pub sized : IsSized after
  pub same_size : after.size ≡ s.size
  pub read : read_8_bytes after cell ≡ ok value
  pub rest : (j : ℕ) → j < cell ⊎ cell + 7 < j → get_elem? after.data_ j ≡ get_elem? s.data_ j

pub write_data64-Quad :
    (s : Storage) (addr offset value : ℕ)
    → IsSized s
    → addr + offset + 7 < s.size
    → s.size < 2 ^ 64
    → offset + 7 < 2 ^ 32
    → value < 2 ^ 64
    → Quad s (addr + offset) value (write_data64 s addr offset value)
unfolding read_8_bytes read_data write_data64 then_write both first eight
write_data64-Quad s addr offset value sized h k l m =
    let cell = addr + offset in
    let high = value / 2 ^ 32 in
    let low = value % 2 ^ 32 in
    let cut : u32 (value / 2 ^ 32) ≡ value / 2 ^ 32 = omega arith in
    let further : u32 (offset + 4) ≡ offset + 4 = omega arith in
    let at : addr + (offset + 4) ≡ addr + offset + 4 = omega arith in
    let one = write_data32_lem s addr offset high (omega arith) k (omega arith) (omega arith) in
    let size : (put_word s cell high).size ≡ s.size = put_word-size s cell high in
    let two =
      write_data32_lem (put_word s cell high) addr (offset + 4) low (rw size (omega arith))
        (rw size k) (omega arith) (omega arith) in
    let start : u64 (cell + 0) ≡ cell = omega arith in
    let count : u64 (cell + 8) - cell ≡ 8 = omega arith in
    record {
      after = both s sized cell high low h;
      wrote = rw (cut, one, further, two, at) refl;
      sized = both-IsSized s sized cell high low h;
      same_size = put_word-size (put_word s cell high) (cell + 4) low ∙ size;
      read = rw (start, count, all_eight s sized cell high low h) (halves value m);
      rest = elsewhere s sized cell high low h;
    }

-- For a storage whose size is the number of its bytes, a 64-bit value, and an address and offset with all eight
-- bytes inside the storage (and no overflow of the 32-bit offset or the 64-bit size): the write of the value
-- does not throw, `read_8_bytes` at the sum of both then returns the value, and every byte outside the eight
-- keeps its contents.
pub read_8_bytes-write_data64 :
    (s : Storage) (addr offset value : ℕ)
    → IsSized s
    → addr + offset + 7 < s.size
    → s.size < 2 ^ 64
    → offset + 7 < 2 ^ 32
    → value < 2 ^ 64
    → let w = write_data64 s addr offset value in
      (w.thrown ≡ false)
      × (read_8_bytes w.storage (addr + offset) ≡ ok value)
      × ((j : ℕ)
          → j < addr + offset ⊎ addr + offset + 7 < j
          → get_elem? w.storage.data_ j ≡ get_elem? s.data_ j)
read_8_bytes-write_data64 s addr offset value sized h k l m =
    let q = write_data64-Quad s addr offset value sized h k l m in rw q.wrote (refl, q.read, q.rest)

-- Rounds that read the same bytes.
rounds_agree :
    (n cell : ℕ) (s s' : Storage)
    → s'.size ≡ s.size
    → ((j : ℕ) → j < n → get_elem? s'.data_ (cell + j) ≡ get_elem? s.data_ (cell + j))
    → read_rounds s' false n cell ≡ read_rounds s false n cell
unfolding read_rounds read_byte validate_addr_safe
rounds_agree zero cell s s' size same = refl
rounds_agree (suc n) cell s s' size same =
    let here : cell + 0 ≡ cell = omega arith in
    let first : get_elem? s'.data_ cell ≡ get_elem? s.data_ cell =
      rw here at (same 0 (omega arith)) in
    let rest = rounds_agree n (cell + 1) s s' size (λ j h.
      let e : cell + suc j ≡ cell + 1 + j = omega arith in rw e at (same (suc j) (omega arith))) in
    rw (size, first, rest) refl

-- A slot of eight bytes that is as it was.
pub slot_same :
    (s s' : Storage) (addr : ℕ)
    → s'.size ≡ s.size
    → addr + 8 < 2 ^ 64
    → ((j : ℕ) → j < 8 → get_elem? s'.data_ (addr + j) ≡ get_elem? s.data_ (addr + j))
    → read_8_bytes s' addr ≡ read_8_bytes s addr
unfolding read_8_bytes read_data
slot_same s s' addr size low same =
    let start : u64 (addr + 0) ≡ addr = omega arith in
    let count : u64 (addr + 8) - addr ≡ 8 = omega arith in
    rw (start, count, rounds_agree 8 addr s s' size same) refl
