-- ===== src/Alu/Flat.antt =====
-- emulator/src/alu/alu_flat.cpp, and the states of the flat memory instructions. The atomic instructions
-- are no case of the switches and no code calls their functions.
pub mod Words
use red_o_lator.Base.{
  ℕ, zero, suc, ◌+◌, ◌*◌, ◌/◌, ◌%◌, ◌^◌, Bool, true, false, List, [], ◌∷◌, ◌++◌, some, length,
  get_elem?, set, take, drop, replicate, leb, ◌==◌, if◌then◌else◌, u16, Result, ok, fail, Fault,
  assert, or_fail, ◌>>=◌, ◌>>◌, for_items,
}
use red_o_lator.Instruction.{Operand, operand_at}
use red_o_lator.Storage.{Storage, Written, write_data16, write_data32, read_4_bytes}
use red_o_lator.Wavefront.{Wavefront, read_operand, write_words_to_gpr}
use red_o_lator.Wavefront.VectorStates.{read_lane}

pub record WfStateFlatStore : Type 0 where
  pub vaddr : List ℕ
  pub vdata : List ℕ
  pub vdata_amount_per_wi : ℕ

pub record WfStateFlatLoad : Type 0 where
  pub vaddr : List ℕ
  pub vdst : List ℕ
  pub vdst_amount_per_wi : ℕ

unfoldable pub flat_words : Wavefront → List Operand → ℕ → Result (List ℕ)
unfolding operand_at
flat_words wf operands i = do operand ← operand_at operands 1; read_operand wf operand (some i)

abbrev pub concat : List (List ℕ) → List ℕ
concat [] = []
concat (xs ∷ xss) = xs ++ concat xss

-- A wavefront of size 0 divides by 0.
unfoldable pub get_flat_store_state : Wavefront → List Operand → Result WfStateFlatStore
unfolding flat_words read_lane
get_flat_store_state wf operands = do
  assert (length operands == 2)
  vaddr ← for_items wf.size 0 (read_lane wf operands 0)
  words ← for_items wf.size 0 (flat_words wf operands)
  let vdata = concat words
  if wf.size == 0 then fail Fault.undefined else do
    assert (length vdata % wf.size == 0)
    ok (record { vaddr = vaddr; vdata = vdata; vdata_amount_per_wi = length vdata / wf.size })

unfoldable pub get_flat_load_state : Wavefront → List Operand → Result WfStateFlatLoad
unfolding operand_at read_lane
get_flat_load_state wf operands = do
  assert (length operands == 2)
  vaddr ← for_items wf.size 0 (read_lane wf operands 0)
  operand ← operand_at operands 1
  ok (record {
    vaddr = vaddr;
    vdst = replicate (operand.reg_amount * wf.size) 0;
    vdst_amount_per_wi = operand.reg_amount;
  })

-- The rounds of the loop over the words of one work item from index `at_word` on. Every round has the same
-- address.
unfoldable pub run_flat_store_dwordxn : List ℕ → ℕ → ℕ → ℕ → Storage → Result Written
run_flat_store_dwordxn vdata addr at_word zero storage =
    ok (record { storage = storage; thrown = false })
run_flat_store_dwordxn vdata addr at_word (suc n) storage = do
  value ← or_fail (get_elem? vdata at_word) Fault.undefined
  let written = write_data32 storage addr 0 value
  let rest = run_flat_store_dwordxn vdata addr (at_word + 1) n written.storage
  if written.thrown then ok written else rest

unfoldable pub run_flat_store_short : WfStateFlatStore → ℕ → ℕ → Storage → Result Written
run_flat_store_short state addr wi_ind storage = do
  assert (state.vdata_amount_per_wi == 1)
  value ← or_fail (get_elem? state.vdata wi_ind) Fault.undefined
  ok (write_data16 storage addr 0 (u16 value))

-- The loads write `VDST[wiInd * vdstAmountPerWi + i]`, again from one address.
unfoldable pub run_flat_load_dwordxn : Storage → ℕ → ℕ → ℕ → List ℕ → Result (List ℕ)
run_flat_load_dwordxn storage addr at_word zero vdst = ok vdst
run_flat_load_dwordxn storage addr at_word (suc n) vdst = do
  value ← read_4_bytes storage addr 0
  run_flat_load_dwordxn storage addr (at_word + 1) n (set vdst at_word value)

-- FLAT_STORE_DWORD to FLAT_STORE_DWORDX4 are `store_dword 1` to `store_dword 4`, and so for the loads.
pub data FlatStoreKey : Type 0 where
  store_dword : ℕ → FlatStoreKey
  store_short store_unsupported : FlatStoreKey

pub data FlatLoadKey : Type 0 where
  load_dword : ℕ → FlatLoadKey
  load_unsupported : FlatLoadKey

unfoldable pub execute_flat_store :
    FlatStoreKey → WfStateFlatStore → ℕ → ℕ → Storage → Result Written
execute_flat_store (store_dword n) state addr wi_ind storage =
    run_flat_store_dwordxn state.vdata addr (wi_ind * state.vdata_amount_per_wi) n storage
execute_flat_store store_short state addr wi_ind storage =
    run_flat_store_short state addr wi_ind storage
execute_flat_store store_unsupported state addr wi_ind storage = fail Fault.unsupported

unfoldable pub execute_flat_load : FlatLoadKey → Storage → ℕ → ℕ → ℕ → List ℕ → Result (List ℕ)
execute_flat_load (load_dword n) storage addr per_wi wi_ind vdst = do
  assert (leb n per_wi)
  run_flat_load_dwordxn storage addr (wi_ind * per_wi) n vdst
execute_flat_load load_unsupported storage addr per_wi wi_ind vdst = fail Fault.unsupported

-- The loops over the work items, in every lane whether EXEC has it or not.
unfoldable pub store_lanes : FlatStoreKey → WfStateFlatStore → List ℕ → ℕ → Storage → Result Written
store_lanes key state [] wi_ind storage = ok (record { storage = storage; thrown = false })
store_lanes key state (addr ∷ addrs) wi_ind storage = do
  written ← execute_flat_store key state addr wi_ind storage
  let rest = store_lanes key state addrs (wi_ind + 1) written.storage
  if written.thrown then ok written else rest

unfoldable pub load_lanes : FlatLoadKey → Storage → ℕ → List ℕ → ℕ → List ℕ → Result (List ℕ)
load_lanes key storage per_wi [] wi_ind vdst = ok vdst
load_lanes key storage per_wi (addr ∷ addrs) wi_ind vdst = do
  vdst' ← execute_flat_load key storage addr per_wi wi_ind vdst
  load_lanes key storage per_wi addrs (wi_ind + 1) vdst'

unfoldable pub write_loaded : List Operand → WfStateFlatLoad → ℕ → ℕ → Wavefront → Result Wavefront
unfolding operand_at
write_loaded operands state zero i wf = ok wf
write_loaded operands state (suc left) i wf = do
  let from = i * state.vdst_amount_per_wi
  assert (leb (from + state.vdst_amount_per_wi) (length state.vdst))
  operand ← operand_at operands 1
  wf' ←
      write_words_to_gpr wf operand (take state.vdst_amount_per_wi (drop from state.vdst)) (some i)
  write_loaded operands state left (i + 1) wf'

unfoldable pub update_with_flat_load_state :
    Wavefront → List Operand → WfStateFlatLoad → Result Wavefront
update_with_flat_load_state wf operands state = write_loaded operands state wf.size 0 wf

unfoldable pub run_flat_store : FlatStoreKey → List Operand → Wavefront → Storage → Result Written
run_flat_store key operands wf storage = do
  state ← get_flat_store_state wf operands
  store_lanes key state state.vaddr 0 storage

unfoldable pub run_flat_load : FlatLoadKey → List Operand → Wavefront → Storage → Result Wavefront
run_flat_load key operands wf storage = do
  state ← get_flat_load_state wf operands
  vdst ← load_lanes key storage state.vdst_amount_per_wi state.vaddr 0 state.vdst
  update_with_flat_load_state wf operands (record state { vdst = vdst })
