-- ===== src/Storage/Words.antt =====
-- Words of 32 bits in the storage.
use red_o_lator.Base.{
  ℕ, ◌+◌, ◌-◌, ◌*◌, ◌/◌, ◌%◌, ◌^◌, ◌<◌, ◌≡◌, ◌⊎◌, ◌∙◌, arith, refl, ap, false, List, [], ◌∷◌, u64,
  get_elem?, some, ok,
}
use red_o_lator.Storage.{Storage, write_data32, read_4_bytes, read_data, read_rounds, join_bytes}
use red_o_lator.Storage.Bytes.{
  IsSized, put, put_word, put-IsSized, put-size, write_data32_lem, join_bytes_lem, get_put_self,
  get_put_ne, read_rounds_step,
}

module _ (s : Storage) (sized : IsSized s) (cell value : ℕ) (inside : cell + 3 < s.size) where
  one : Storage
  one = put s cell (value / 2 ^ 24)

  two : Storage
  two = put one (cell + 1) (value / 2 ^ 16 % 256)

  three : Storage
  three = put two (cell + 1 + 1) (value / 2 ^ 8 % 256)

  one-IsSized : IsSized one
  unfolding one
  one-IsSized = put-IsSized s _ _ sized

  two-IsSized : IsSized two
  unfolding two
  two-IsSized = put-IsSized one _ _ one-IsSized

  three-IsSized : IsSized three
  unfolding three
  three-IsSized = put-IsSized two _ _ two-IsSized

  pub room : (j : ℕ) → j < s.size → j < (put_word s cell value).size
  unfolding put_word
  room j h = put-size _ _ _ (put-size _ _ _ (put-size _ _ _ (put-size s _ _ h)))

  pub byte3 : get_elem? (put_word s cell value).data_ (cell + 1 + 1 + 1) ≡ some (value % 256)
  unfolding put_word one two three
  byte3 =
      get_put_self three _ _ three-IsSized
        (put-size two _ _ (put-size one _ _ (put-size s _ _ (omega arith))))

  pub byte2 : get_elem? (put_word s cell value).data_ (cell + 1 + 1) ≡ some (value / 2 ^ 8 % 256)
  unfolding put_word one two three
  byte2 =
      get_put_ne three _ _ (cell + 1 + 1) (λ e. omega arith)
      ∙ get_put_self two _ _ two-IsSized (put-size one _ _ (put-size s _ _ (omega arith)))

  pub byte1 : get_elem? (put_word s cell value).data_ (cell + 1) ≡ some (value / 2 ^ 16 % 256)
  unfolding put_word one two three
  byte1 =
      get_put_ne three _ _ (cell + 1) (λ e. omega arith)
      ∙ get_put_ne two _ _ (cell + 1) (λ e. omega arith)
      ∙ get_put_self one _ _ one-IsSized (put-size s _ _ (omega arith))

  pub byte0 : get_elem? (put_word s cell value).data_ cell ≡ some (value / 2 ^ 24)
  unfolding put_word one two three
  byte0 =
      get_put_ne three _ _ cell (λ e. omega arith)
      ∙ get_put_ne two _ _ cell (λ e. omega arith)
      ∙ get_put_ne one _ _ cell (λ e. omega arith)
      ∙ get_put_self s _ _ sized (omega arith)

  pub others :
      (j : ℕ)
      → j < cell ⊎ cell + 3 < j
      → get_elem? (put_word s cell value).data_ j ≡ get_elem? s.data_ j
  unfolding put_word one two three
  others j h =
      get_put_ne three _ _ j (λ e. omega arith)
      ∙ get_put_ne two _ _ j (λ e. omega arith)
      ∙ get_put_ne one _ _ j (λ e. omega arith)
      ∙ get_put_ne s _ _ j (λ e. omega arith)

  word : List ℕ
  word = value / 2 ^ 24 ∷ value / 2 ^ 16 % 256 ∷ value / 2 ^ 8 % 256 ∷ value % 256 ∷ []

  no_rounds : read_rounds (put_word s cell value) false 0 (cell + 1 + 1 + 1 + 1) ≡ ok []
  unfolding read_rounds
  no_rounds = refl

  rounds : read_rounds (put_word s cell value) false 4 cell ≡ ok word
  unfolding word
  rounds =
      let stored = put_word s cell value in
      read_rounds_step stored false 3 cell _ _ (room _ (omega arith)) byte0 (
        read_rounds_step stored false 2 (cell + 1) _ _ (room _ (omega arith)) byte1 (
          read_rounds_step stored false 1 (cell + 1 + 1) _ _ (room _ (omega arith)) byte2 (
            read_rounds_step stored false 0 (cell + 1 + 1 + 1) _ _ (room _ (omega arith)) byte3
              no_rounds)))

  joined : value < 2 ^ 32 → join_bytes word ≡ ok value
  unfolding word
  joined h =
      let sum : ((value / 2 ^ 24 * 256 + value / 2 ^ 16 % 256) * 256 + value / 2 ^ 8 % 256) * 256
            + value % 256
          ≡ value =
        omega arith in
      join_bytes_lem _ _ _ _ (omega arith) (omega arith) (omega arith) (omega arith) ∙ ap ok sum

-- For a storage whose size is the number of its bytes, a 32-bit value, and an address and offset
-- with all four bytes inside the storage (and no overflow of the 32-bit offset or the 64-bit size):
-- the write of the value does not throw, `read_4_bytes` at the same place then returns the value, and
-- every byte outside the four keeps its contents.
pub read_4_bytes-write_data32 :
    (s : Storage) (addr offset value : ℕ)
    → IsSized s
    → addr + offset + 3 < s.size
    → s.size < 2 ^ 64
    → offset + 3 < 2 ^ 32
    → value < 2 ^ 32
    → let w = write_data32 s addr offset value in
      (w.thrown ≡ false)
      × (read_4_bytes w.storage addr offset ≡ ok value)
      × ((j : ℕ)
          → j < addr + offset ⊎ addr + offset + 3 < j
          → get_elem? w.storage.data_ j ≡ get_elem? s.data_ j)
unfolding read_4_bytes read_data
read_4_bytes-write_data32 s addr offset value sized h k l m =
    let cell : u64 (addr + offset) ≡ addr + offset = omega arith in
    let four : u64 (addr + offset + 4) - (addr + offset) ≡ 4 = omega arith in
    rw (write_data32_lem s addr offset value h k l m) (
      refl,
      rw (cell, four, rounds s sized (addr + offset) value h)
          (joined s sized (addr + offset) value h m),
      others s sized (addr + offset) value h,
    )
