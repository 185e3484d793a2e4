-- ===== src/Storage/Safe.antt =====
-- Reads with the flag `safe`, which stop at the end of the storage.
use red_o_lator.Base.{
  ℕ, zero, suc, ◌+◌, ◌-◌, ◌^◌, ◌<◌, ◌≤◌, ◌≡◌, refl, arith, true, List, [], ◌∷◌, length, get_or,
  get_elem?-get_or, take, drop, ltb, ltb→lt, u64, Bool-cases, inl, inr, ok,
}
use red_o_lator.Storage.{Storage, validate_addr_safe, read_byte, read_rounds, read_data}
use red_o_lator.Storage.Bytes.{IsSized}

drop-cons : (xs : List ℕ) (a : ℕ) → a < length xs → drop a xs ≡ get_or xs a 0 ∷ drop (a + 1) xs
drop-cons [] a h = elim h [ ]
drop-cons (x ∷ xs) zero h = refl
drop-cons (x ∷ xs) (suc a) h =
    let next : suc a + 1 ≡ suc (a + 1) = omega arith in rw next (drop-cons xs a (omega arith))

drop-all : (xs : List ℕ) (a : ℕ) → length xs ≤ a → drop a xs ≡ []
drop-all [] zero h = refl
drop-all [] (suc a) h = refl
drop-all (x ∷ xs) zero h = elim h [ ]
drop-all (x ∷ xs) (suc a) h = drop-all xs a (omega arith)

take-nil : (n : ℕ) → take {A = ℕ} n [] ≡ []
take-nil zero = refl
take-nil (suc n) = refl

pub rounds-safe :
    (s : Storage) (n a : ℕ) → IsSized s → read_rounds s true n a ≡ ok (take n (drop a s.data_))
unfolding read_rounds validate_addr_safe read_byte
rounds-safe s zero a sized = refl
rounds-safe s (suc n) a sized = elim (Bool-cases (ltb a s.size)) [
  | inl inside ↦
      let lt : a < length s.data_ = omega (arith, ltb→lt a s.size inside) in
      rw
        (
          inside,
          get_elem?-get_or s.data_ a 0 lt,
          rounds-safe s n (a + 1) sized,
          drop-cons s.data_ a lt,
        )
        refl
  | inr outside ↦
      let ge : length s.data_ ≤ a = ground arith in rw (outside, drop-all s.data_ a ge) refl
]

-- For a storage whose size is the number of its bytes and a range that does not pass 2 ^ 64: `read_data` with
-- the flag `safe` returns the bytes of the range, cut off at the end of the storage.
pub read_data-safe :
    (s : Storage) (address offset n : ℕ)
    → IsSized s
    → address + offset + n < 2 ^ 64
    → read_data s address offset n true ≡ ok (take n (drop (address + offset) s.data_))
unfolding read_data
read_data-safe s address offset n sized h =
    let start : u64 (address + offset) ≡ address + offset = omega arith in
    let rounds : u64 (address + offset + n) - (address + offset) ≡ n = omega arith in
    rw (start, rounds) (rounds-safe s n (address + offset) sized)
