-- ===== src/Base/BitLoop.antt =====
-- Loops over lanes in which round i changes lane i and bit i of a shared word.
use Prim.Native.Nat.{ℕ, zero, suc, ◌+◌, ◌^◌, ◌≤◌, ◌<◌}
use mathlib.Core.Path.{◌≡◌, refl, ap, ◌∙◌, sym}
use mathlib.Core.Bool.{Bool, true, false}
use mathlib.Core.Option.{some}
use mathlib.Core.List.{List, [], ◌∷◌}
use native.Mathlib.Omega.{arith}
use red_o_lator.Base.Tests.{if◌then◌else◌, to_nat, ◌==◌}
use red_o_lator.Base.Lists.{length, get_elem?}
use red_o_lator.Base.Faults.{Result, ok}
use red_o_lator.Base.Loops.{for_lanes}
use red_o_lator.Base.BitLaws.{bit}
use red_o_lator.Base.LaneBits.{put_bit, bit-put_bit, put_bit-lt}

abbrev pub All {ℓ κ} : {A : Type ℓ} → (A → Type κ) → List A → Type κ
All P [] = Unit
All P (x ∷ xs) = P x × All P xs

same_bit : (i j w : ℕ) → bit j w ≡ (if j == i then bit i w else bit j w)
same_bit i j w = ground arith

pub get_elem?-lt {ℓ} :
    {A : Type ℓ} (xs : List A) (i : ℕ) (x : A) → get_elem? xs i ≡ some x → i < length xs
get_elem?-lt [] i x e = cc
get_elem?-lt (y ∷ ys) zero x e = omega arith
get_elem?-lt (y ∷ ys) (suc i) x e = omega (arith, get_elem?-lt ys i x e)

module _ {ℓ κ} {Shared : Type ℓ} {Lane : Type κ} (word : Shared → ℕ) (put : Shared → ℕ → Shared)
    (word-put : (s : Shared) (w : ℕ) → word (put s w) ≡ w) (active : ℕ → Bool)
    (round : ℕ → Shared → Lane → Result (Shared × Lane)) (test : ℕ → Lane → Bool)
    (change : ℕ → Lane → Lane) (Good : Lane → Type 0)
    (step : (i : ℕ) (s : Shared) (lane : Lane)
      → i < 64
      → Good lane
      → round i s lane
        ≡ ok (
          put s (put_bit (word s) i (test (bit i (word s)) lane)),
          change (bit i (word s)) lane,
        )) where
  -- Lane k of the list, which is lane i + k of the loop, and its bit, before and after.
  abbrev pub Done : ℕ → ℕ → List Lane → ℕ → List Lane → Type κ
  Done i before lanes after lanes' =
      (k : ℕ) (lane : Lane)
      → get_elem? lanes k ≡ some lane
      → (get_elem? lanes' k
          ≡ some (if active (i + k) then change (bit (i + k) before) lane else lane))
        × (bit (i + k) after ≡ (
            if active (i + k) then to_nat (test (bit (i + k) before) lane) else bit (i + k) before))

  abbrev pub After : ℕ → Shared → List Lane → Shared × List Lane → Type κ
  After i s lanes r =
      (word r.0 < 2 ^ 64)
      × ((j : ℕ) → j < i → bit j (word r.0) ≡ bit j (word s))
      × Done i (word s) lanes (word r.0) r.1

  first : Bool → ℕ → Shared → Lane → Shared × Lane
  first b i s lane =
      if b
      then (put s (put_bit (word s) i (test (bit i (word s)) lane)), change (bit i (word s)) lane)
      else (s, lane)

  first_ran :
      (b : Bool) (i : ℕ) (s : Shared) (lane : Lane)
      → i < 64
      → Good lane
      → (if b then round i s lane else ok (s, lane)) ≡ ok (first b i s lane)
  unfolding first
  first_ran true i s lane h g = step i s lane h g
  first_ran false i s lane h g = refl

  first-bit :
      (b : Bool) (i : ℕ) (s : Shared) (lane : Lane) (j : ℕ)
      → i < 64
      → j < 64
      → bit j (word (first b i s lane).0) ≡ (
          if j == i
          then (if b then to_nat (test (bit i (word s)) lane) else bit i (word s))
          else bit j (word s))
  unfolding first
  first-bit true i s lane j h k =
      rw (word-put s (put_bit (word s) i (test (bit i (word s)) lane)))
        (bit-put_bit (word s) i (test (bit i (word s)) lane) j h k)
  first-bit false i s lane j h k = same_bit i j (word s)

  first-lt :
      (b : Bool) (i : ℕ) (s : Shared) (lane : Lane)
      → i < 64
      → word s < 2 ^ 64
      → word (first b i s lane).0 < 2 ^ 64
  unfolding first
  first-lt true i s lane h lt =
      rw (word-put s (put_bit (word s) i (test (bit i (word s)) lane)))
        (put_bit-lt (word s) i (test (bit i (word s)) lane) h lt)
  first-lt false i s lane h lt = lt

  -- Bits below round i, and bits above it, are not those of round i.
  first-bit_other :
      (i : ℕ) (s : Shared) (lane : Lane) (j : ℕ)
      → i < 64
      → j < 64
      → (j == i) ≡ false
      → bit j (word (first (active i) i s lane).0) ≡ bit j (word s)
  first-bit_other i s lane j h k ne = rw (first-bit (active i) i s lane j h k, ne) refl

  first-lane :
      (b : Bool) (i : ℕ) (s : Shared) (lane : Lane)
      → (first b i s lane).1 ≡ (if b then change (bit i (word s)) lane else lane)
  unfolding first
  first-lane true i s lane = refl
  first-lane false i s lane = refl

  Done-cons :
      (i : ℕ) (s : Shared) (x : Lane) (xs : List Lane) (after : ℕ) (ys : List Lane)
      → i < 64
      → i + 1 + length xs ≤ 64
      → bit i after ≡ bit i (word (first (active i) i s x).0)
      → Done (i + 1) (word (first (active i) i s x).0) xs after ys
      → Done i (word s) (x ∷ xs) after ((first (active i) i s x).1 ∷ ys)
  Done-cons i s x xs after ys h few here done zero lane e =
      let at : i + 0 ≡ i = omega arith in
      let same : (i == i) ≡ true = ground arith in
      let taken : x ≡ lane = cc in
      rw (at, sym taken)
        (
          ap some (first-lane (active i) i s x),
          here ∙ rw (first-bit (active i) i s x i h h, same) refl,
        )
  Done-cons i s x xs after ys h few here done (suc k) lane e =
      let at : i + suc k ≡ i + 1 + k = omega arith in
      let below : i + 1 + k < 64 = omega (arith, get_elem?-lt xs k lane e) in
      let ne : (i + 1 + k == i) ≡ false = ground arith in
      let old = first-bit_other i s x (i + 1 + k) h below ne in rw at (rw old at (done k lane e))

  pub for_lanes-After :
      (i : ℕ) (s : Shared) (lanes : List Lane)
      → All Good lanes
      → i + length lanes ≤ 64
      → word s < 2 ^ 64
      → (r : Shared × List Lane) × (for_lanes active round i s lanes ≡ ok r) × After i s lanes r
  unfolding for_lanes
  for_lanes-After i s [] good few small = ((s, []), refl, (small, λ j h. refl, λ k lane e. cc))
  for_lanes-After i s (x ∷ xs) good few small =
      let h : i < 64 = omega arith in
      let one = first (active i) i s x in
      let (r, ran, after) =
        for_lanes-After (i + 1) one.0 xs good.1 (omega arith) (first-lt (active i) i s x h small) in
      let (below, kept, done) = after in
      (
        (r.0, one.1 ∷ r.1),
        rw (first_ran (active i) i s x h good.0, ran) refl,
        (
          below,
          λ j lt. kept j (omega arith) ∙ first-bit_other i s x j h (omega arith) (ground arith),
          Done-cons i s x xs (word r.0) r.1 h (omega arith) (kept i (omega arith)) done,
        ),
      )

  pub for_lanes-bits :
      (s : Shared) (lanes : List Lane)
      → All Good lanes
      → length lanes ≤ 64
      → word s < 2 ^ 64
      → (r : Shared × List Lane) × (for_lanes active round 0 s lanes ≡ ok r)
        × ((k : ℕ) (lane : Lane)
            → get_elem? lanes k ≡ some lane
            → (get_elem? r.1 k ≡ some (if active k then change (bit k (word s)) lane else lane))
              × (bit k (word r.0)
                  ≡ (if active k then to_nat (test (bit k (word s)) lane) else bit k (word s))))
  for_lanes-bits s lanes good few small =
      let (r, ran, after) = for_lanes-After 0 s lanes good (omega arith) small in
      (r, ran, λ k lane e. let at : 0 + k ≡ k = omega arith in rw at at (after.2 k lane e))
