-- ===== src/Base/Searches.antt =====
-- What the two searching loops find.
use Prim.Native.Nat.{ℕ, zero, suc, ◌+◌, ◌≤◌, ◌<◌}
use mathlib.Core.Path.{◌≡◌, refl}
use mathlib.Core.Bool.{Bool, true, false}
use mathlib.Core.Option.{Option, none, some}
use native.Mathlib.Decide.{dec_lt}
use native.Mathlib.Omega.{arith}
use red_o_lator.Base.Loops.{find_up, find_down}

-- The first index in a range that passes a test, or none.
abbrev pub FirstIn : ℕ → ℕ → (ℕ → Bool) → Option ℕ → Type 0
FirstIn lo hi test none = (j : ℕ) → lo ≤ j → j < hi → test j ≡ false
FirstIn lo hi test (some i) =
    (lo ≤ i) × (i < hi) × (test i ≡ true) × ((j : ℕ) → lo ≤ j → j < i → test j ≡ false)

miss_first :
    (i j : ℕ) (test : ℕ → Bool)
    → test i ≡ false
    → i ≤ j
    → (i + 1 ≤ j → test j ≡ false)
    → test j ≡ false
miss_first i j test miss p later = elim (dec_lt i j) [
  | yes q ↦ later (omega arith)
  | no q ↦ let e : j ≡ i = omega arith in rw e miss
]

skip_first :
    (i hi : ℕ) (test : ℕ → Bool) (o : Option ℕ)
    → test i ≡ false
    → FirstIn (i + 1) hi test o
    → FirstIn i hi test o
skip_first i hi test none miss f = λ j p q. miss_first i j test miss p (λ r. f j r q)
skip_first i hi test (some k) miss f =
    (omega arith, f.1, f.2, λ j p q. miss_first i j test miss p (λ r. f.3 j r q))

pub find_up-FirstIn :
    (rounds i hi : ℕ) (test : ℕ → Bool)
    → i + rounds ≡ hi
    → FirstIn i hi test (find_up rounds i test)
unfolding find_up
find_up-FirstIn zero i hi test e = λ j p q. absurd (omega arith)
find_up-FirstIn (suc rounds) i hi test e =
    step (test i) refl (find_up-FirstIn rounds (i + 1) hi test (omega arith))
  where
    step :
        (b : Bool)
        → test i ≡ b
        → FirstIn (i + 1) hi test (find_up rounds (i + 1) test)
        → FirstIn i hi test (elim b [ true ↦ some i | false ↦ find_up rounds (i + 1) test ])
    step true hit ih = (omega arith, omega arith, hit, λ j p q. absurd (omega arith))
    step false miss ih = skip_first i hi test _ miss ih

-- The last index below a bound that passes a test, or none.
abbrev pub LastBelow : ℕ → (ℕ → Bool) → Option ℕ → Type 0
LastBelow hi test none = (j : ℕ) → j < hi → test j ≡ false
LastBelow hi test (some i) =
    (i < hi) × (test i ≡ true) × ((j : ℕ) → i < j → j < hi → test j ≡ false)

miss_last :
    (i j : ℕ) (test : ℕ → Bool)
    → test i ≡ false
    → j < suc i
    → (j < i → test j ≡ false)
    → test j ≡ false
miss_last i j test miss p earlier = elim (dec_lt j i) [
  | yes q ↦ earlier q
  | no q ↦ let e : j ≡ i = omega arith in rw e miss
]

skip_last :
    (i : ℕ) (test : ℕ → Bool) (o : Option ℕ)
    → test i ≡ false
    → LastBelow i test o
    → LastBelow (suc i) test o
skip_last i test none miss f = λ j p. miss_last i j test miss p (λ r. f j r)
skip_last i test (some k) miss f =
    (omega arith, f.1, λ j p q. miss_last i j test miss q (λ r. f.2 j p r))

pub find_down-LastBelow : (n : ℕ) (test : ℕ → Bool) → LastBelow n test (find_down n test)
unfolding find_down
find_down-LastBelow zero test = λ j p. absurd (omega arith)
find_down-LastBelow (suc i) test = step (test i) refl (find_down-LastBelow i test)
  where
    step :
        (b : Bool)
        → test i ≡ b
        → LastBelow i test (find_down i test)
        → LastBelow (suc i) test (elim b [ true ↦ some i | false ↦ find_down i test ])
    step true hit ih = (omega arith, hit, λ j p q. absurd (omega arith))
    step false miss ih = skip_last i test _ miss ih
