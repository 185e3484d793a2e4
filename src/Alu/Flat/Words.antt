-- ===== src/Alu/Flat/Words.antt =====
-- What the flat instructions of several words store.
use red_o_lator.Base.{
  ℕ, zero, suc, ◌+◌, ◌^◌, ◌<◌, ◌≡◌, ◌⊎◌, ◌∙◌, refl, arith, List, length, get_elem?, get_or,
  get_elem?-get_or, ok,
}
use red_o_lator.Storage.{Storage, write_data32, read_4_bytes}
use red_o_lator.Storage.Bytes.{
  IsSized, put_word, put_word-size, put-IsSized, write_data32_lem, written,
}
use red_o_lator.Storage.Words.{read_4_bytes-write_data32}
use red_o_lator.Alu.Flat.{run_flat_store_dwordxn}

put_word-IsSized : (s : Storage) (cell value : ℕ) → IsSized s → IsSized (put_word s cell value)
unfolding put_word
put_word-IsSized s cell value h =
    put-IsSized _ _ _ (put-IsSized _ _ _ (put-IsSized _ _ _ (put-IsSized s _ _ h)))

-- A storage after a store to an address: what the address holds, and that all else is as it was.
abbrev pub StoredAt : Storage → ℕ → ℕ → Storage → Type 0
StoredAt s addr value s' =
    (read_4_bytes s' addr 0 ≡ ok value)
    × ((j : ℕ) → (j < addr) ⊎ (addr + 3 < j) → get_elem? s'.data_ j ≡ get_elem? s.data_ j)

-- One word.
word_stored :
    (s : Storage) (addr value : ℕ)
    → IsSized s
    → addr + 3 < s.size
    → s.size < 2 ^ 64
    → value < 2 ^ 32
    → (write_data32 s addr 0 value ≡ written (put_word s addr value))
      × StoredAt s addr value (put_word s addr value)
word_stored s addr value sized h k small =
    let start : addr + 0 ≡ addr = omega arith in
    let wrote = write_data32_lem s addr 0 value (omega arith) k (omega arith) small in
    let both = read_4_bytes-write_data32 s addr 0 value sized (omega arith) k (omega arith) small in
    let wrote' : write_data32 s addr 0 value ≡ written (put_word s addr value) =
      rw start at wrote in
    let (threw, read, others) = rw (wrote', start) at both in (wrote', (read, others))

-- For n + 1 words from index `at_word` of VDATA on and an address with four bytes inside a sized storage: the
-- store of n + 1 words returns and does not throw; the address then holds the last one of these words, and
-- every byte outside its four bytes is unchanged. The words before the last one are not stored anywhere.
pub store_dwordxn-last :
    (vdata : List ℕ) (addr at_word n : ℕ) (s : Storage)
    → IsSized s
    → addr + 3 < s.size
    → s.size < 2 ^ 64
    → at_word + n < length vdata
    → ((i : ℕ) → i < length vdata → get_or vdata i 0 < 2 ^ 32)
    → (s' : Storage) × (run_flat_store_dwordxn vdata addr at_word (suc n) s ≡ ok (written s'))
      × StoredAt s addr (get_or vdata (at_word + n) 0) s'
unfolding run_flat_store_dwordxn
store_dwordxn-last vdata addr at_word zero s sized h k few words =
    let here : at_word + 0 ≡ at_word = omega arith in
    let word = get_or vdata at_word 0 in
    let found = get_elem?-get_or vdata at_word 0 (omega arith) in
    let (wrote, stored) = word_stored s addr word sized h k (words at_word (omega arith)) in
    (put_word s addr word, rw (found, wrote) refl, rw here stored)
store_dwordxn-last vdata addr at_word (suc n) s sized h k few words =
    let next : at_word + suc n ≡ at_word + 1 + n = omega arith in
    let word = get_or vdata at_word 0 in
    let found = get_elem?-get_or vdata at_word 0 (omega arith) in
    let (wrote, stored) = word_stored s addr word sized h k (words at_word (omega arith)) in
    let size = put_word-size s addr word in
    let (s', ran, last) =
      store_dwordxn-last vdata addr (at_word + 1) n (put_word s addr word)
        (put_word-IsSized s addr word sized) (omega (arith, size)) (omega (arith, size))
        (omega arith) words in
    (
      s',
      rw (found, wrote) ran,
      rw next (last.0, λ j outside. last.1 j outside ∙ stored.1 j outside),
    )
