-- ===== src/Base/Lanes.antt =====
-- What the loops over lanes compute when no round fails.
use Prim.Native.Nat.{ℕ, zero, suc, ◌+◌, ◌≤◌, ◌<◌}
use mathlib.Core.Path.{◌≡◌, refl, ap}
use mathlib.Core.Bool.{Bool, true, false}
use mathlib.Core.Option.{some}
use mathlib.Core.List.{List, [], ◌∷◌, map}
use mathlib.Core.Logic.{inl, inr}
use native.Mathlib.Omega.{arith}
use red_o_lator.Base.Tests.{if◌then◌else◌, Bool-cases}
use red_o_lator.Base.Lists.{length, get_elem?, get_or}
use red_o_lator.Base.Faults.{Result, ok, ◌>>=◌, >>=-eq-ok}
use red_o_lator.Base.Loops.{for_items, for_lanes}

module _ {ℓ} {A : Type ℓ} where
  -- g i, g (i + 1), … : n of them.
  abbrev pub tabulate : ℕ → ℕ → (ℕ → A) → List A
  tabulate zero i g = []
  tabulate (suc n) i g = g i ∷ tabulate n (i + 1) g

  pub for_items-ok :
      (n i : ℕ) (item : ℕ → Result A) (g : ℕ → A)
      → ((j : ℕ) → i ≤ j → j < i + n → item j ≡ ok (g j))
      → for_items n i item ≡ ok (tabulate n i g)
  unfolding for_items
  for_items-ok zero i item g h = refl
  for_items-ok (suc n) i item g h =
      rw
        (
          h i (omega arith) (omega arith),
          for_items-ok n (i + 1) item g (λ j p q. h j (omega arith) (omega arith)),
        )
        refl

  pub length-tabulate : (n i : ℕ) (g : ℕ → A) → length (tabulate n i g) ≡ n
  length-tabulate zero i g = refl
  length-tabulate (suc n) i g = ap suc (length-tabulate n (i + 1) g)

  pub get_elem?-tabulate :
      (n i : ℕ) (g : ℕ → A) (k : ℕ) → k < n → get_elem? (tabulate n i g) k ≡ some (g (i + k))
  get_elem?-tabulate zero i g k h = elim h [ ]
  get_elem?-tabulate (suc n) i g zero h = let e : i + 0 ≡ i = omega arith in rw e refl
  get_elem?-tabulate (suc n) i g (suc k) h =
      let e : i + suc k ≡ i + 1 + k = omega arith in
      rw e (get_elem?-tabulate n (i + 1) g k (omega arith))

  pub get_elem?-get_or :
      (xs : List A) (i : ℕ) (d : A) → i < length xs → get_elem? xs i ≡ some (get_or xs i d)
  get_elem?-get_or [] i d h = elim h [ ]
  get_elem?-get_or (x ∷ xs) zero d h = refl
  get_elem?-get_or (x ∷ xs) (suc i) d h = get_elem?-get_or xs i d (omega arith)

pub map-tabulate {ℓ κ} :
    {A : Type ℓ} {B : Type κ} (f : A → B) (n i : ℕ) (g : ℕ → A)
    → map f (tabulate n i g) ≡ tabulate n i (λ j. f (g j))
map-tabulate f zero i g = refl
map-tabulate f (suc n) i g = rw (map-tabulate f n (i + 1) g) refl

module _ {ℓ κ} {Shared : Type ℓ} {Lane : Type κ} (active : ℕ → Bool) where
  -- Rounds that always return and leave what they share alone.
  pub for_lanes-tabulate :
      (round : ℕ → Shared → Lane → Result (Shared × Lane)) (f : ℕ → Lane → Lane) (shared : Shared)
      → ((i : ℕ) (lane : Lane) → round i shared lane ≡ ok (shared, f i lane))
      → (n i : ℕ) (g : ℕ → Lane)
      → for_lanes active round i shared (tabulate n i g)
        ≡ ok (shared, tabulate n i (λ j. if active j then f j (g j) else g j))
  unfolding for_lanes
  for_lanes-tabulate round f shared h zero i g = refl
  for_lanes-tabulate round f shared h (suc n) i g =
      let rest = for_lanes-tabulate round f shared h n (i + 1) g in
      elim (Bool-cases (active i)) [
        | inl e ↦ rw (e, h i (g i), rest) refl
        | inr e ↦ rw (e, rest) refl
      ]

-- The lanes that a loop leaves: as many, and the inactive ones as they were.
abbrev pub InactiveKept {κ} : {Lane : Type κ} → (ℕ → Bool) → ℕ → List Lane → List Lane → Type κ
InactiveKept active i lanes lanes' =
    (length lanes' ≡ length lanes)
    × ((j : ℕ) → active (i + j) ≡ false → get_elem? lanes' j ≡ get_elem? lanes j)

cons-InactiveKept {κ} :
    {Lane : Type κ} (active : ℕ → Bool) (i : ℕ) (x y : Lane) (xs ys : List Lane)
    → (active i ≡ false → y ≡ x)
    → InactiveKept active (i + 1) xs ys
    → InactiveKept active i (x ∷ xs) (y ∷ ys)
cons-InactiveKept active i x y xs ys head rest = (ap suc rest.0, at)
  where
    at : (j : ℕ) → active (i + j) ≡ false → get_elem? (y ∷ ys) j ≡ get_elem? (x ∷ xs) j
    at zero p = let e : i + 0 ≡ i = omega arith in ap some (head (rw⁻¹ e p))
    at (suc j) p = let e : i + suc j ≡ i + 1 + j = omega arith in rest.1 j (rw e at p)

module _ {ℓ κ} {Shared : Type ℓ} {Lane : Type κ} (active : ℕ → Bool) where
  first_kept :
      (b : Bool) (ran : Result (Shared × Lane)) (shared : Shared) (x : Lane) (r : Shared × Lane)
      → (if b then ran else ok (shared, x)) ≡ ok r
      → b ≡ false
      → r.1 ≡ x
  first_kept true ran shared x r h e = cc
  first_kept false ran shared x r h e = cc

  module _ (round : ℕ → Shared → Lane → Result (Shared × Lane)) where
    first_round : ℕ → Shared → Lane → Result (Shared × Lane)
    first_round i shared x = if active i then round i shared x else ok (shared, x)

    -- The two parts of a loop that returned.
    for_lanes-parts :
        (i : ℕ) (shared : Shared) (x : Lane) (xs : List Lane) (r : Shared × List Lane)
        → for_lanes active round i shared (x ∷ xs) ≡ ok r
        → (a : Shared × Lane) × (first_round i shared x ≡ ok a)
          × ((b : Shared × List Lane) × (for_lanes active round (i + 1) a.0 xs ≡ ok b)
              × (r ≡ (b.0, a.1 ∷ b.1)))
    unfolding for_lanes first_round
    for_lanes-parts i shared x xs r h =
        let (a, first, next) =
          >>=-eq-ok (first_round i shared x)
            (λ a. for_lanes active round (i + 1) a.0 xs >>= λ b. ok (b.0, a.1 ∷ b.1)) h in
        let (b, rest, last) =
          >>=-eq-ok (for_lanes active round (i + 1) a.0 xs) (λ b. ok (b.0, a.1 ∷ b.1)) next in
        (a, first, (b, rest, cc))

    pub for_lanes-InactiveKept :
        (i : ℕ) (shared : Shared) (lanes : List Lane) (r : Shared × List Lane)
        → for_lanes active round i shared lanes ≡ ok r
        → InactiveKept active i lanes r.1
    unfolding for_lanes first_round
    for_lanes-InactiveKept i shared [] (s, l) h = let e : l ≡ [] = cc in rw e (refl, λ j p. refl)
    for_lanes-InactiveKept i shared (x ∷ xs) (s, l) h =
        let (a, first, parts) = for_lanes-parts i shared x xs (s, l) h in
        let (b, rest, last) = parts in
        let e : l ≡ a.1 ∷ b.1 = cc in
        rw e (
          cons-InactiveKept active i x a.1 xs b.1
            (first_kept (active i) (round i shared x) shared x a first)
            (for_lanes-InactiveKept (i + 1) a.0 xs b rest))
