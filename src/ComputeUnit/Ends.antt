-- ===== src/ComputeUnit/Ends.antt =====
-- How the run of one wavefront ends, and what `resolve_barrier` expects.
use red_o_lator.Base.{
  ℕ, zero, suc, ◌≡◌, ◌≢◌, ◌∙◌, ◌⊎◌, inl, inr, refl, sym, arith, ap, Bool, true, false, List, [],
  ◌∷◌, some, get_elem?, set, get_elem?-set_self, ok, fail, Fault, ◌>>=◌, >>=-eq-ok, Bool-cases,
}
use red_o_lator.Base.BitLoop.{get_elem?-lt}
use red_o_lator.Wavefront.{Wavefront}
use red_o_lator.Alu.Instr.{FloatUnit, run_instr}
use red_o_lator.KernelCode.{Key, Instruction, KernelCode}
use red_o_lator.DebugContext.{ExecutionContext, create_context}
use red_o_lator.ComputeUnit.Rounds.{run_round-others, run_round-parts}
use red_o_lator.ComputeUnit.{
  Machine, to_next_instr, after_instr, wavefront_at, put_wavefront, run_key, run_round, run_rounds,
  run_wavefront, all_wf_completed, clear_barriers, resolve_barrier,
}

-- Wavefront k is completed or waits at a barrier.
abbrev pub HasEnded : ℕ → List Wavefront → Type 0
HasEnded k wfs =
    (wf : Wavefront) × (get_elem? wfs k ≡ some wf)
    × ((wf.completed ≡ true) ⊎ (wf.at_barrier ≡ true))

stored :
    (k : ℕ) (wfs : List Wavefront) (old wf : Wavefront)
    → get_elem? wfs k ≡ some old
    → get_elem? (set wfs k wf) k ≡ some wf
stored k wfs old wf e = get_elem?-set_self wfs k wf (get_elem?-lt wfs k old e)

module _ (fpu : FloatUnit) (code : KernelCode) (k : ℕ) where
  run_key-ends :
      (instr : Instruction) (key : Key) (wf old : Wavefront) (m m' : Machine)
      → get_elem? m.group.wavefronts k ≡ some old
      → run_key fpu code k instr key wf m ≡ ok (m', false)
      → HasEnded k m'.group.wavefronts
  unfolding run_key put_wavefront
  run_key-ends instr Key.s_endpgm wf old m m' e h =
      let same : m' ≡ put_wavefront m k (record wf { completed = true }) = cc in
      rw same (
        record wf { completed = true },
        stored k m.group.wavefronts old (record wf { completed = true }) e,
        inl refl,
      )
  run_key-ends instr Key.s_barrier wf old m m' e h =
      let same : m' ≡ put_wavefront m k (record wf { at_barrier = true }) = cc in
      rw same (
        record wf { at_barrier = true },
        stored k m.group.wavefronts old (record wf { at_barrier = true }) e,
        inr refl,
      )
  run_key-ends instr Key.s_waitcnt wf old m m' e h =
      let (wf', next, done) =
        >>=-eq-ok (to_next_instr code wf) (λ wf'. ok (put_wavefront m k wf', true)) h in
      cc
  run_key-ends instr (Key.executed key) wf old m m' e h =
      let (ran, one, rest) =
        >>=-eq-ok (run_instr fpu key instr.operands wf m.storage)
          (λ ran. to_next_instr code ran.wavefront >>= λ wf'. ok (after_instr m k ran wf', true))
          h in
      let (wf', next, done) =
        >>=-eq-ok (to_next_instr code ran.wavefront) (λ wf'. ok (after_instr m k ran wf', true))
          rest in
      cc

  found-some :
      (m : Machine) (wf : Wavefront)
      → wavefront_at m k ≡ ok wf
      → get_elem? m.group.wavefronts k ≡ some wf
  unfolding wavefront_at
  found-some m wf h = ground arith

  -- What a run of wavefront k leaves.
  abbrev Left : Machine → Machine → Type 0
  Left m r =
      HasEnded k r.group.wavefronts
      × ((j : ℕ) → k ≢ j → get_elem? r.group.wavefronts j ≡ get_elem? m.group.wavefronts j)

  run_rounds-Left :
      (fuel : ℕ) (ctx : ExecutionContext) (m r : Machine)
      → run_rounds fuel fpu code k ctx m ≡ ok r
      → Left m r
  unfolding run_rounds
  run_rounds-Left zero ctx m r h = cc
  run_rounds-Left (suc fuel) ctx m r h =
      let (p, one, rest) =
        >>=-eq-ok (run_round fpu code k ctx m)
          (λ p. elim p.1 [ true ↦ run_rounds fuel fpu code k ctx p.0 | false ↦ ok p.0 ]) h in
      go p one rest (λ m'. run_rounds-Left fuel ctx m' r)
    where
      go :
          (p : Machine × Bool)
          → run_round fpu code k ctx m ≡ ok p
          → (elim p.1 [ true ↦ run_rounds fuel fpu code k ctx p.0 | false ↦ ok p.0 ]) ≡ ok r
          → ((m' : Machine) → run_rounds fuel fpu code k ctx m' ≡ ok r → Left m' r)
          → Left m r
      go (m', true) one h' later =
          let (ended, others) = later m' h' in
          (ended, λ j ne. others j ne ∙ run_round-others fpu code k j ctx m (m', true) ne one)
      go (m', false) one h' later =
          let e : r ≡ m' = cc in
          let parts = run_round-parts fpu code k ctx m (m', false) one in
          rw e (
            run_key-ends parts.instr parts.instr.key parts.wf parts.wf
                (record m { debug = parts.debug }) m' (found-some m parts.wf parts.found) parts.ran,
            λ j ne. run_round-others fpu code k j ctx m (m', false) ne one,
          )

-- If `run_wavefront` returns for wavefront k, that wavefront is completed or at a barrier, and every other
-- wavefront of the group is as it was.
pub run_wavefront-Left :
    (fpu : FloatUnit) (code : KernelCode) (fuel k : ℕ) (m r : Machine)
    → run_wavefront fuel fpu code k m ≡ ok r
    → HasEnded k r.group.wavefronts
      × ((j : ℕ) → k ≢ j → get_elem? r.group.wavefronts j ≡ get_elem? m.group.wavefronts j)
unfolding run_wavefront
run_wavefront-Left fpu code fuel k m r h =
    let (wf, found, a) =
      >>=-eq-ok (wavefront_at m k)
        (λ wf. create_context m.group 0 wf >>= λ ctx. run_rounds fuel fpu code k ctx m) h in
    let (ctx, made, b) =
      >>=-eq-ok (create_context m.group 0 wf) (λ ctx. run_rounds fuel fpu code k ctx m) a in
    run_rounds-Left fpu code k fuel ctx m r b

cleared_or_not :
    (wfs : List Wavefront)
    → (clear_barriers wfs ≡ fail Fault.assertion)
      ⊎ ((r : List Wavefront) × (clear_barriers wfs ≡ ok r))
unfolding clear_barriers
cleared_or_not [] = inr ([], refl)
cleared_or_not (wf ∷ wfs) = elim (cleared_or_not wfs) [
  | inl f ↦ inl (rw f refl)
  | inr (r, e) ↦ elim (Bool-cases wf.at_barrier) [
    | inl b ↦ inr (record wf { at_barrier = false } ∷ r, rw (e, b) refl)
    | inr b ↦ inl (rw (e, b) refl)
  ]
]

no_clear :
    (wfs : List Wavefront) (i : ℕ) (wf : Wavefront)
    → get_elem? wfs i ≡ some wf
    → wf.at_barrier ≡ false
    → clear_barriers wfs ≡ fail Fault.assertion
unfolding clear_barriers
no_clear [] i wf e away = cc
no_clear (x ∷ xs) zero wf e away =
    let same : wf ≡ x = cc in
    let away' : x.at_barrier ≡ false = ap (λ (w : Wavefront). w.at_barrier) (sym same) ∙ away in
    elim (cleared_or_not xs) [ inl f ↦ rw f refl | inr (r, ran) ↦ rw (ran, away') refl ]
no_clear (x ∷ xs) (suc i) wf e away = rw (no_clear xs i wf e away) refl

open_group :
    (wfs : List Wavefront) (j : ℕ) (wf : Wavefront)
    → get_elem? wfs j ≡ some wf
    → wf.completed ≡ false
    → all_wf_completed wfs ≡ false
unfolding all_wf_completed
open_group [] j wf e h = cc
open_group (x ∷ xs) zero wf e h =
    let same : wf ≡ x = cc in
    let done : x.completed ≡ false = ap (λ (w : Wavefront). w.completed) (sym same) ∙ h in
    rw done refl
open_group (x ∷ xs) (suc j) wf e h = ground (arith, open_group xs j wf e h)

-- If one wavefront of a group is not completed and one, for instance a completed one, is not at a barrier,
-- `resolve_barrier` fails its assertion.
pub resolve_barrier-away :
    (m : Machine) (i j : ℕ) (away running : Wavefront)
    → get_elem? m.group.wavefronts i ≡ some away
    → away.at_barrier ≡ false
    → get_elem? m.group.wavefronts j ≡ some running
    → running.completed ≡ false
    → resolve_barrier m ≡ fail Fault.assertion
unfolding resolve_barrier
resolve_barrier-away m i j away running ea a er r =
    rw (open_group m.group.wavefronts j running er r, no_clear m.group.wavefronts i away ea a) refl
