-- ===== src/Base/Loops.antt =====
-- Loops over a counter, with the number of rounds left as the recursion.
use Prim.Native.Nat.{ℕ, zero, suc, ◌+◌}
use mathlib.Core.Bool.{Bool, true, false}
use mathlib.Core.Option.{Option, none, some}
use mathlib.Core.List.{List, [], ◌∷◌}
use red_o_lator.Base.Tests.{if◌then◌else◌}
use red_o_lator.Base.Faults.{Result, ok, ◌>>=◌}

-- `for (i = start; rounds times; i += step) acc = body(i, acc);`
unfoldable pub for_step {ℓ} : {S : Type ℓ} → ℕ → ℕ → ℕ → (ℕ → S → S) → S → S
for_step step zero i body acc = acc
for_step step (suc rounds) i body acc = for_step step rounds (i + step) body (body i acc)

-- The first index from `i` upwards, over so many rounds, that passes the test; `break` at it.
unfoldable pub find_up : ℕ → ℕ → (ℕ → Bool) → Option ℕ
find_up zero i test = none
find_up (suc rounds) i test = elim (test i) [ true ↦ some i | false ↦ find_up rounds (i + 1) test ]

-- The first index below `rounds` downwards that passes the test.
unfoldable pub find_down : ℕ → (ℕ → Bool) → Option ℕ
find_down zero test = none
find_down (suc i) test = elim (test i) [ true ↦ some i | false ↦ find_down i test ]

-- `for (i = start; rounds times; ++i) items.push_back(item(i));`
unfoldable pub for_items {ℓ} : {A : Type ℓ} → ℕ → ℕ → (ℕ → Result A) → Result (List A)
for_items zero i item = ok []
for_items (suc rounds) i item = do
  head ← item i
  rest ← for_items rounds (i + 1) item
  ok (head ∷ rest)

-- A loop over lanes from index `i` on that skips the inactive ones: a round changes its own lane and
-- what the rounds share.
unfoldable pub for_lanes {ℓ κ} :
    {Shared : Type ℓ} {Lane : Type κ}
    → (ℕ → Bool)
    → (ℕ → Shared → Lane → Result (Shared × Lane))
    → ℕ
    → Shared
    → List Lane
    → Result (Shared × List Lane)
for_lanes active round i shared [] = ok (shared, [])
for_lanes active round i shared (lane ∷ lanes) = do
  (shared', lane') ← if active i then round i shared lane else ok (shared, lane)
  (shared_end, lanes') ← for_lanes active round (i + 1) shared' lanes
  ok (shared_end, lane' ∷ lanes')
