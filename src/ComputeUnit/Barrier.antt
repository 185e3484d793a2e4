-- ===== src/ComputeUnit/Barrier.antt =====
-- A work group with a wavefront that has reached an S_BARRIER.
use red_o_lator.Base.{
  ℕ, zero, suc, ◌≡◌, ◌∙◌, refl, sym, arith, ap, Bool, true, false, List, [], ◌∷◌, length,
  if◌then◌else◌, Result, ok, fail, Fault, ◌>>=◌, >>=-eq-ok,
}
use red_o_lator.ComputeUnit.Rounds.{WaitsAt, Stuck, run_wavefronts-Stuck}
use red_o_lator.Wavefront.{Wavefront}
use red_o_lator.Alu.Instr.{FloatUnit}
use red_o_lator.KernelCode.{KernelCode}
use red_o_lator.ComputeUnit.{
  Machine, get_cur_instr, all_wf_completed, clear_barriers, resolve_barrier, run_wavefronts,
  run_work_group,
}

cleared_head : Wavefront → List Wavefront → Result (List Wavefront)
cleared_head wf rest =
    if wf.at_barrier then ok (record wf { at_barrier = false } ∷ rest) else fail Fault.assertion

cleared_head-ok :
    (b : Bool) (x y : List Wavefront) → (if b then ok x else fail Fault.assertion) ≡ ok y → y ≡ x
cleared_head-ok true x y h = cc
cleared_head-ok false x y h = cc

-- The flag of the barrier is no part of what a wavefront waits at.
cleared-Stuck :
    (code : KernelCode) (k : ℕ) (wfs r : List Wavefront)
    → Stuck code k wfs
    → clear_barriers wfs ≡ ok r
    → Stuck code k r
unfolding clear_barriers get_cur_instr cleared_head
cleared-Stuck code k [] r s h = let none = s.here in cc
cleared-Stuck code zero (wf ∷ wfs) r s h =
    let (rest, tail, head) = >>=-eq-ok (clear_barriers wfs) (cleared_head wf) h in
    let e = cleared_head-ok wf.at_barrier (record wf { at_barrier = false } ∷ rest) r head in
    let found = s.here in
    let same : s.wavefront ≡ wf = cc in
    let waits : WaitsAt code wf = rw same at s.waits in
    rw e (record {
      wavefront = record wf { at_barrier = false };
      here = refl;
      waits = record {
        instr = waits.instr;
        current = waits.current;
        is_barrier = waits.is_barrier;
        not_completed = waits.not_completed;
      };
    })
cleared-Stuck code (suc k) (wf ∷ wfs) r s h =
    let (rest, tail, head) = >>=-eq-ok (clear_barriers wfs) (cleared_head wf) h in
    let e = cleared_head-ok wf.at_barrier (record wf { at_barrier = false } ∷ rest) r head in
    let inner =
      cleared-Stuck code k wfs rest
        (record { wavefront = s.wavefront; here = s.here; waits = s.waits }) tail in
    rw e (record { wavefront = inner.wavefront; here = inner.here; waits = inner.waits })

not_all_completed :
    (code : KernelCode) (k : ℕ) (wfs : List Wavefront)
    → Stuck code k wfs
    → all_wf_completed wfs ≡ false
unfolding all_wf_completed
not_all_completed code k [] s = let none = s.here in cc
not_all_completed code zero (wf ∷ wfs) s =
    let found = s.here in
    let same : s.wavefront ≡ wf = cc in
    let done : wf.completed ≡ false =
      ap (λ (w : Wavefront). w.completed) (sym same) ∙ s.waits.not_completed in
    rw done refl
not_all_completed code (suc k) (wf ∷ wfs) s =
    let rest =
      not_all_completed code k wfs
        (record { wavefront = s.wavefront; here = s.here; waits = s.waits }) in
    ground (arith, rest)

resolve_barrier-Stuck :
    (code : KernelCode) (k : ℕ) (m r : Machine)
    → Stuck code k m.group.wavefronts
    → resolve_barrier m ≡ ok r
    → Stuck code k r.group.wavefronts
unfolding resolve_barrier
resolve_barrier-Stuck code k m r s h =
    let open_ = not_all_completed code k m.group.wavefronts s in
    let h' = rw open_ at h in
    let (wfs, cleared, done) =
      >>=-eq-ok (clear_barriers m.group.wavefronts)
        (λ wfs. ok (record m { group = record m.group { wavefronts = wfs } })) h' in
    let e : r ≡ record m { group = record m.group { wavefronts = wfs } } = cc in
    rw e (cleared-Stuck code k m.group.wavefronts wfs s cleared)

-- If the current instruction of a wavefront that is not completed is an S_BARRIER, the run of its work group
-- returns for no amount of fuel.
pub run_work_group-Stuck :
    (fpu : FloatUnit) (code : KernelCode) (k : ℕ) (m : Machine)
    → Stuck code k m.group.wavefronts
    → (turns fuel : ℕ) (r : Machine) → ¬ (run_work_group turns fuel fpu code m ≡ ok r)
unfolding run_work_group
run_work_group-Stuck fpu code k m s zero fuel r h =
    let open_ = not_all_completed code k m.group.wavefronts s in let h' = rw open_ at h in cc
run_work_group-Stuck fpu code k m s (suc turns) fuel r h =
    let open_ = not_all_completed code k m.group.wavefronts s in
    let h' = rw (open_, run_work_group) at h in
    let (b, ab, rest) =
      >>=-eq-ok (run_wavefronts fuel fpu code (length m.group.wavefronts) 0 m >>= resolve_barrier)
        (run_work_group turns fuel fpu code) h' in
    let (a, ran, resolved) =
      >>=-eq-ok (run_wavefronts fuel fpu code (length m.group.wavefronts) 0 m) resolve_barrier ab in
    run_work_group-Stuck fpu code k b
      (resolve_barrier-Stuck code k a b
        (run_wavefronts-Stuck fpu code fuel (length m.group.wavefronts) 0 k m a s ran) resolved)
      turns fuel r rest
