-- ===== src/Wavefront/Registers.antt =====
-- What is written to scalar registers is what is read back.
use red_o_lator.Base.{
  ℕ, ◌+◌, ◌*◌, ◌/◌, ◌%◌, ◌^◌, ◌<◌, ◌≡◌, ◌≢◌, ◌==◌, arith, refl, true, List, some, u32, u64, length,
  get_elem?, set, length-set, get_elem?-set_self, get_elem?-set_ne, ok, lt→ltb, bit_or, ◌∙◌, sym,
}
use red_o_lator.Base.BitLaws.{bit_or_fields, bit_or_comm}
use red_o_lator.Wavefront.{Wavefront, set_sgpr_pair, read_sgpr_pair}

-- The file after a pair was stored.
unfoldable pub store_pair : List ℕ → ℕ → ℕ → List ℕ
store_pair file sgpr value = set (set file sgpr (u32 value)) (sgpr + 1) (u32 (value / 2 ^ 32))

module _ (file : List ℕ) (sgpr value : ℕ) (inside : sgpr + 1 < length file) where
  pub low_word : get_elem? (store_pair file sgpr value) sgpr ≡ some (u32 value)
  unfolding store_pair
  low_word =
      get_elem?-set_ne (set file sgpr (u32 value)) (u32 (value / 2 ^ 32)) (λ e. omega arith)
      ∙ get_elem?-set_self file sgpr (u32 value) (omega arith)

  pub high_word : get_elem? (store_pair file sgpr value) (sgpr + 1) ≡ some (u32 (value / 2 ^ 32))
  unfolding store_pair
  high_word =
      get_elem?-set_self (set file sgpr (u32 value)) (sgpr + 1) (u32 (value / 2 ^ 32))
        (omega (arith, length-set file sgpr (u32 value)))

  pub others :
      (i : ℕ)
      → i ≢ sgpr
      → i ≢ sgpr + 1
      → get_elem? (store_pair file sgpr value) i ≡ get_elem? file i
  unfolding store_pair
  others i p q =
      get_elem?-set_ne (set file sgpr (u32 value)) (u32 (value / 2 ^ 32)) (λ e. q (sym e))
      ∙ get_elem?-set_ne file (u32 value) (λ e. p (sym e))

join_words :
    (value : ℕ) → value < 2 ^ 64 → bit_or (u32 value) (u64 (u32 (value / 2 ^ 32) * 2 ^ 32)) ≡ value
join_words value h =
    let top : u64 (u32 (value / 2 ^ 32) * 2 ^ 32) ≡ value / 2 ^ 32 * 2 ^ 32 = omega arith in
    rw (top, bit_or_comm (u32 value) (value / 2 ^ 32 * 2 ^ 32))
      (omega (arith, bit_or_fields 32 (value / 2 ^ 32) (u32 value) (omega arith)))

-- For an even register index with both registers of the pair in the file, and a 64-bit value:
-- `set_sgpr_pair` succeeds, `read_sgpr_pair` then returns the value, and every other scalar register
-- keeps its contents.
pub read_sgpr_pair-set_sgpr_pair :
    (wf : Wavefront) (sgpr value : ℕ)
    → sgpr % 2 ≡ 0
    → sgpr + 1 < length wf.scalar_reg_file
    → value < 2 ^ 64
    → (wf' : Wavefront) × (set_sgpr_pair wf sgpr value ≡ ok wf')
      × (read_sgpr_pair wf' sgpr ≡ ok value)
      × ((i : ℕ)
          → i ≢ sgpr
          → i ≢ sgpr + 1
          → get_elem? wf'.scalar_reg_file i ≡ get_elem? wf.scalar_reg_file i)
unfolding set_sgpr_pair read_sgpr_pair store_pair
read_sgpr_pair-set_sgpr_pair wf sgpr value even inside small =
    let test : (sgpr % 2 == 0) ≡ true = ground arith in
    (
      record wf { scalar_reg_file = store_pair wf.scalar_reg_file sgpr value },
      rw (test, lt→ltb _ _ inside) refl,
      rw
          (
            test,
            low_word wf.scalar_reg_file sgpr value inside,
            high_word wf.scalar_reg_file sgpr value inside,
            join_words value small,
          )
          refl,
      others wf.scalar_reg_file sgpr value inside,
    )
