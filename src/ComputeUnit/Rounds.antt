-- ===== src/ComputeUnit/Rounds.antt =====
-- The rounds of a wavefront, and a wavefront that has reached an S_BARRIER.
use red_o_lator.Base.{
  ℕ, zero, suc, ◌+◌, ◌≡◌, ◌≢◌, ◌∙◌, ap, Bool, true, false, List, some, get_elem?, set,
  get_elem?-set_self, get_elem?-set_ne, ok, Fault, or_fail, ◌>>=◌, >>=-eq-ok, Option,
}
use native.Mathlib.Decide.{ℕ_discrete}
use red_o_lator.Base.BitLoop.{get_elem?-lt}
use red_o_lator.Wavefront.{Wavefront}
use red_o_lator.Alu.Instr.{FloatUnit, run_instr}
use red_o_lator.KernelCode.{Key, Instruction, KernelCode}
use red_o_lator.DebugContext.{DebugContext, ExecutionContext, process_instruction, create_context}
use red_o_lator.ComputeUnit.{
  Machine, get_cur_instr, to_next_instr, after_instr, wavefront_at, put_wavefront, run_key,
  run_round, run_rounds, run_wavefront, run_wavefronts,
}

-- A wavefront that is not completed and whose current instruction is an S_BARRIER.
pub record WaitsAt (code : KernelCode) (wf : Wavefront) : Type 0 where
  pub instr : Instruction
  pub current : get_cur_instr code wf ≡ ok instr
  pub is_barrier : instr.key ≡ Key.s_barrier
  pub not_completed : wf.completed ≡ false

-- Wavefront k of the group is such a one.
pub record Stuck (code : KernelCode) (k : ℕ) (wfs : List Wavefront) : Type 0 where
  pub wavefront : Wavefront
  pub here : get_elem? wfs k ≡ some wavefront
  pub waits : WaitsAt code wavefront

module _ (fpu : FloatUnit) (code : KernelCode) where
  -- A round of wavefront j replaces it in the group.
  pub run_key-set :
      (j : ℕ) (instr : Instruction) (key : Key) (wf : Wavefront) (m : Machine) (r : Machine × Bool)
      → run_key fpu code j instr key wf m ≡ ok r
      → (wf' : Wavefront) × (r.0.group.wavefronts ≡ set m.group.wavefronts j wf')
  unfolding run_key put_wavefront after_instr
  run_key-set j instr Key.s_endpgm wf m r h = (record wf { completed = true }, ended)
    where
      ended : r.0.group.wavefronts ≡ set m.group.wavefronts j (record wf { completed = true })
      ended = cc
  run_key-set j instr Key.s_barrier wf m r h = (record wf { at_barrier = true }, arrived)
    where
      arrived : r.0.group.wavefronts ≡ set m.group.wavefronts j (record wf { at_barrier = true })
      arrived = cc
  run_key-set j instr Key.s_waitcnt wf m r h =
      let (wf', next, done) =
        >>=-eq-ok (to_next_instr code wf) (λ wf'. ok (put_wavefront m j wf', true)) h in
      let e : r ≡ (put_wavefront m j wf', true) = cc in
      (wf', ap (λ (p : Machine × Bool). p.0.group.wavefronts) e)
  run_key-set j instr (Key.executed key) wf m r h =
      let (ran, one, rest) =
        >>=-eq-ok (run_instr fpu key instr.operands wf m.storage)
          (λ ran. to_next_instr code ran.wavefront >>= λ wf'. ok (after_instr m j ran wf', true))
          h in
      let (wf', next, done) =
        >>=-eq-ok (to_next_instr code ran.wavefront) (λ wf'. ok (after_instr m j ran wf', true))
          rest in
      let e : r ≡ (after_instr m j ran wf', true) = cc in
      (wf', ap (λ (p : Machine × Bool). p.0.group.wavefronts) e)

  -- The parts of a round that returned.
  pub record Round (j : ℕ) (ctx : ExecutionContext) (m : Machine) (r : Machine × Bool)
      : Type 0 where
    pub wf : Wavefront
    pub instr : Instruction
    pub debug : DebugContext
    pub found : wavefront_at m j ≡ ok wf
    pub current : get_cur_instr code wf ≡ ok instr
    pub ran : run_key fpu code j instr instr.key wf (record m { debug = debug }) ≡ ok r

  pub run_round-parts :
      (j : ℕ) (ctx : ExecutionContext) (m : Machine) (r : Machine × Bool)
      → run_round fpu code j ctx m ≡ ok r
      → Round j ctx m r
  unfolding run_round
  run_round-parts j ctx m r h =
      let (wf, found, a) =
        >>=-eq-ok (wavefront_at m j)
          (λ wf. get_cur_instr code wf >>= λ instr.
            process_instruction m.storage m.group m.debug (record ctx { address = instr.addr })
            >>= λ debug. run_key fpu code j instr instr.key wf (record m { debug = debug }))
          h in
      let (instr, current, b) =
        >>=-eq-ok (get_cur_instr code wf)
          (λ instr.
            process_instruction m.storage m.group m.debug (record ctx { address = instr.addr })
            >>= λ debug. run_key fpu code j instr instr.key wf (record m { debug = debug }))
          a in
      let (debug, asked, c) =
        >>=-eq-ok
          (process_instruction m.storage m.group m.debug (record ctx { address = instr.addr }))
          (λ debug. run_key fpu code j instr instr.key wf (record m { debug = debug })) b in
      record { wf = wf; instr = instr; debug = debug; found = found; current = current; ran = c }

  pub run_round-others :
      (j k : ℕ) (ctx : ExecutionContext) (m : Machine) (r : Machine × Bool)
      → j ≢ k
      → run_round fpu code j ctx m ≡ ok r
      → get_elem? r.0.group.wavefronts k ≡ get_elem? m.group.wavefronts k
  run_round-others j k ctx m r ne h =
      let parts = run_round-parts j ctx m r h in
      let (wf', e) =
        run_key-set j parts.instr parts.instr.key parts.wf (record m { debug = parts.debug }) r
          parts.ran in
      rw e (get_elem?-set_ne m.group.wavefronts wf' ne)

  run_key-barrier :
      (j : ℕ) (instr : Instruction) (key : Key) (wf : Wavefront) (m : Machine) (r : Machine × Bool)
      → key ≡ Key.s_barrier
      → run_key fpu code j instr key wf m ≡ ok r
      → r ≡ (put_wavefront m j (record wf { at_barrier = true }), false)
  unfolding run_key
  run_key-barrier j instr key wf m r e h =
      let h' : run_key fpu code j instr Key.s_barrier wf m ≡ ok r = rw e at h in cc

  -- A round of a waiting wavefront ends the loop, and the wavefront waits on.
  run_round-same_barrier :
      (k : ℕ) (ctx : ExecutionContext) (m : Machine) (r : Machine × Bool)
      → Stuck code k m.group.wavefronts
      → run_round fpu code k ctx m ≡ ok r
      → (r.1 ≡ false) × Stuck code k r.0.group.wavefronts
  unfolding put_wavefront wavefront_at get_cur_instr
  run_round-same_barrier k ctx m r s h =
      let parts = run_round-parts k ctx m r h in
      let at : or_fail (get_elem? m.group.wavefronts k) Fault.undefined ≡ ok s.wavefront =
        ap (λ (o : Option Wavefront). or_fail o Fault.undefined) s.here in
      let found = parts.found in
      let same : parts.wf ≡ s.wavefront = cc in
      let counter : get_cur_instr code parts.wf ≡ get_cur_instr code s.wavefront =
        ap (get_cur_instr code) same in
      let current = parts.current in
      let current' = s.waits.current in
      let instr : parts.instr ≡ s.waits.instr = cc in
      let key : parts.instr.key ≡ Key.s_barrier =
        ap (λ (x : Instruction). x.key) instr ∙ s.waits.is_barrier in
      let after =
        run_key-barrier k parts.instr parts.instr.key parts.wf (record m { debug = parts.debug }) r
          key parts.ran in
      let done : parts.wf.completed ≡ false =
        ap (λ (w : Wavefront). w.completed) same ∙ s.waits.not_completed in
      (
        ap (λ (p : Machine × Bool). p.1) after,
        record {
          wavefront = record parts.wf { at_barrier = true };
          here =
              ap (λ (p : Machine × Bool). get_elem? p.0.group.wavefronts k) after
              ∙ get_elem?-set_self m.group.wavefronts k (record parts.wf { at_barrier = true })
                  (get_elem?-lt m.group.wavefronts k s.wavefront s.here);
          waits = record {
            instr = parts.instr;
            current = parts.current;
            is_barrier = key;
            not_completed = done;
          };
        },
      )

  Stuck-moved :
      (k : ℕ) (ws vs : List Wavefront)
      → get_elem? vs k ≡ get_elem? ws k
      → Stuck code k ws
      → Stuck code k vs
  Stuck-moved k ws vs e s = record { wavefront = s.wavefront; here = e ∙ s.here; waits = s.waits }

  -- What holds after a round of any wavefront, whether the loop goes on or not.
  run_round-Stuck :
      (j k : ℕ) (ctx : ExecutionContext) (m : Machine) (r : Machine × Bool)
      → Stuck code k m.group.wavefronts
      → run_round fpu code j ctx m ≡ ok r
      → Stuck code k r.0.group.wavefronts
  run_round-Stuck j k ctx m r s h = elim (ℕ_discrete j k) [
    | yes e ↦ (run_round-same_barrier k ctx m r s (rw e at h)).1
    | no ne ↦ Stuck-moved k _ _ (run_round-others j k ctx m r ne h) s
  ]

  run_rounds-Stuck :
      (fuel j k : ℕ) (ctx : ExecutionContext) (m r : Machine)
      → Stuck code k m.group.wavefronts
      → run_rounds fuel fpu code j ctx m ≡ ok r
      → Stuck code k r.group.wavefronts
  unfolding run_rounds
  run_rounds-Stuck zero j k ctx m r s h = cc
  run_rounds-Stuck (suc fuel) j k ctx m r s h =
      let (p, one, rest) =
        >>=-eq-ok (run_round fpu code j ctx m)
          (λ p. elim p.1 [ true ↦ run_rounds fuel fpu code j ctx p.0 | false ↦ ok p.0 ]) h in
      go p (run_round-Stuck j k ctx m p s one) rest (λ m'. run_rounds-Stuck fuel j k ctx m' r)
    where
      go :
          (p : Machine × Bool)
          → Stuck code k p.0.group.wavefronts
          → (elim p.1 [ true ↦ run_rounds fuel fpu code j ctx p.0 | false ↦ ok p.0 ]) ≡ ok r
          → ((m' : Machine)
              → Stuck code k m'.group.wavefronts
              → run_rounds fuel fpu code j ctx m' ≡ ok r
              → Stuck code k r.group.wavefronts)
          → Stuck code k r.group.wavefronts
      go (m', true) s' h' later = later m' s' h'
      go (m', false) s' h' later = let e : r ≡ m' = cc in rw e s'

  run_wavefront-Stuck :
      (fuel j k : ℕ) (m r : Machine)
      → Stuck code k m.group.wavefronts
      → run_wavefront fuel fpu code j m ≡ ok r
      → Stuck code k r.group.wavefronts
  unfolding run_wavefront
  run_wavefront-Stuck fuel j k m r s h =
      let (wf, found, a) =
        >>=-eq-ok (wavefront_at m j)
          (λ wf. create_context m.group 0 wf >>= λ ctx. run_rounds fuel fpu code j ctx m) h in
      let (ctx, made, b) =
        >>=-eq-ok (create_context m.group 0 wf) (λ ctx. run_rounds fuel fpu code j ctx m) a in
      run_rounds-Stuck fuel j k ctx m r s b

  pub run_wavefronts-Stuck :
      (fuel left j k : ℕ) (m r : Machine)
      → Stuck code k m.group.wavefronts
      → run_wavefronts fuel fpu code left j m ≡ ok r
      → Stuck code k r.group.wavefronts
  unfolding run_wavefronts
  run_wavefronts-Stuck fuel zero j k m r s h = let e : r ≡ m = cc in rw e s
  run_wavefronts-Stuck fuel (suc left) j k m r s h =
      let (m', one, rest) =
        >>=-eq-ok (run_wavefront fuel fpu code j m) (run_wavefronts fuel fpu code left (j + 1)) h in
      run_wavefronts-Stuck fuel left (j + 1) k m' r (run_wavefront-Stuck fuel j k m m' s one) rest
