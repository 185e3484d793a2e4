-- ===== src/Dispatcher/Runs.antt =====
-- A whole run of the dispatcher: `while (has_next_wg()) next_wg();`.
use red_o_lator.Base.{
  ℕ, ◌+◌, ◌-◌, ◌*◌, ◌^◌, ◌≤◌, ◌<◌, ◌≡◌, arith, refl, ◌∙◌, true, List, [], ◌∷◌, some, wrap_sub,
  length, ltb, ltb→lt, ok,
}
use native.Mathlib.Nat.{mod-eq_of_lt, div-le_self}
use red_o_lator.WorkGroup.{WorkGroup, KernelConfig}
use red_o_lator.Dispatcher.{Dispatcher, amount, new_dispatcher, has_next_wg, next_wg}
use red_o_lator.Dispatcher.Order.{
  IsDivided, IsLaunchable, IsAt, Numbers, groups, width, height, depth, next_wg-IsAt,
}

-- Calls that each found a next group and returned it.
pub data Hands : Dispatcher → List WorkGroup → Dispatcher → Type 0 where
  done : (d : Dispatcher) → Hands d [] d
  hand :
      (d d' d'' : Dispatcher) (wg : WorkGroup) (rest : List WorkGroup)
      → has_next_wg d ≡ true
      → next_wg d ≡ ok (some wg, d')
      → Hands d' rest d''
      → Hands d (wg ∷ rest) d''

-- The groups of the list have the ids that number n, n + 1 and so on.
abbrev pub AreNumbered : ℕ → ℕ → ℕ → List WorkGroup → Type 0
AreNumbered w h n [] = Unit
AreNumbered w h n (wg ∷ rest) = Numbers w h wg.group_id n × AreNumbered w h (n + 1) rest

abbrev pub total : KernelConfig → ℕ
total config = width config * (height config * depth config)

-- The numbering along an equation of the configurations and one of the groups.
moved :
    (c c' : KernelConfig) (g wg : WorkGroup) (n : ℕ)
    → c ≡ c'
    → g ≡ wg
    → Numbers (width c) (height c) g.group_id n
    → Numbers (width c') (height c') wg.group_id n
moved c c' g wg n e f h = rw⁻¹ (e, f) h

module _ (config : KernelConfig) (fits : IsLaunchable config) where
  groups_of :
      (d d' : Dispatcher) (wgs : List WorkGroup) (n : ℕ)
      → d.kernel_config ≡ config
      → d.wg_amount ≡ total config
      → IsAt (width config) (height config) d n
      → n ≤ total config
      → Hands d wgs d'
      → AreNumbered (width config) (height config) n wgs
        × (d'.wg_amount ≡ total config)
        × (d'.dispatched_wg ≡ n + length wgs)
        × (n + length wgs ≤ total config)
  unfolding has_next_wg
  groups_of d d' wgs n same size at within (done a) = (tt, size, omega (arith, at.0), omega arith)
  groups_of d d' wgs n same size at within (hand a e b wg rest more given next) =
      let room : n < total config = omega (arith, ltb→lt _ _ more, at.0, size) in
      let (g, made, ids, at', same', size') =
        next_wg-IsAt a e (some wg) n (rw same fits) (rw same at) (rw same room) given in
      let own : g ≡ wg = cc in
      let (numbered, amount', count, bound) =
        groups_of e d' rest (n + 1) (same' ∙ same) (size' ∙ size) (rw⁻¹ same at') (omega arith)
          next in
      (
        (moved a.kernel_config config g wg n same own ids, numbered),
        amount',
        omega (arith, count),
        omega (arith, bound),
      )

amount-groups : (size wg : ℕ) → IsDivided size wg → amount size wg ≡ groups size wg
unfolding amount
amount-groups size wg d =
    let wrapped : wrap_sub 64 size 1 ≡ size - 1 = omega arith in
    rw wrapped (mod-eq_of_lt (omega (arith, div-le_self (size - 1) wg, d.1)))

-- For a configuration whose sizes are not 0 and whose number of groups fits 64 bits: when a new
-- dispatcher has handed out groups for as long as `has_next_wg` returned true, the groups' ids number
-- 0, 1, 2 and so on with x running fastest, at most as many groups as there are were handed out, and
-- `has_next_wg` then returns false exactly when these are all of them.
pub new_dispatcher-AreNumbered :
    (config : KernelConfig) (d : Dispatcher) (wgs : List WorkGroup)
    → IsLaunchable config
    → total config < 2 ^ 64
    → Hands (new_dispatcher config) wgs d
    → AreNumbered (width config) (height config) 0 wgs
      × (length wgs ≤ total config)
      × (has_next_wg d ≡ ltb (length wgs) (total config))
unfolding new_dispatcher has_next_wg
new_dispatcher-AreNumbered config d wgs fits small hands =
    let (numbered, size, count, bound) =
      groups_of config fits (new_dispatcher config) d wgs 0 refl counted start (omega arith)
        hands in
    let none_before : 0 + length wgs ≡ length wgs = omega arith in
    (numbered, omega (arith, bound), rw (size, count, none_before) refl)
  where
    start : IsAt (width config) (height config) (new_dispatcher config) 0
    start = (refl, omega arith, omega arith, omega arith)

    counted : (new_dispatcher config).wg_amount ≡ total config
    counted =
        rw (amount-groups _ _ fits.0, amount-groups _ _ fits.1, amount-groups _ _ fits.2)
          (omega arith)
