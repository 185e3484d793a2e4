-- ===== src/Breakpoint/Replay.antt =====
-- The storage of breakpoints against its history: a breakpoint is set exactly when the last change that
-- concerns it is an addition.
use red_o_lator.Base.{
  ℕ, ◌≡◌, refl, arith, Bool, true, false, ◌||◌, List, [], ◌∷◌, ◌==◌, if◌then◌else◌,
}
use red_o_lator.Breakpoint.{
  Breakpoint, global_at, local_at, contains, insert, erase, set_of, put_set, BreakpointStorage,
  empty_storage, add_breakpoint, remove_breakpoint, clear, has_breakpoint, has_breakpoint_in,
}

contains-insert :
    (xs : List ℕ) (a b : ℕ) → contains (insert xs a) b ≡ (if a == b then true else contains xs b)
unfolding contains insert
contains-insert [] a b = ground arith
contains-insert (x ∷ xs) a b = ground (arith, contains-insert xs a b)

contains-erase :
    (xs : List ℕ) (a b : ℕ) → contains (erase xs a) b ≡ (if a == b then false else contains xs b)
unfolding contains erase
contains-erase [] a b = ground arith
contains-erase (x ∷ xs) a b = ground (arith, contains-erase xs a b)

set_of-put_set :
    (m : List (ℕ × List ℕ)) (k j : ℕ) (s : List ℕ)
    → set_of (put_set m k s) j ≡ (if k == j then s else set_of m j)
unfolding set_of put_set
set_of-put_set [] k j s = ground arith
set_of-put_set ((i, t) ∷ m) k j s = ground (arith, set_of-put_set m k j s)

-- The changes of a storage.
pub data Change : Type 0 where
  added : Breakpoint → Change
  removed : Breakpoint → Change
  cleared : Change

unfoldable pub apply : BreakpointStorage → Change → BreakpointStorage
apply s (added b) = add_breakpoint s b
apply s (removed b) = remove_breakpoint s b
apply s cleared = clear s

-- The latest change comes first.
unfoldable pub replay : List Change → BreakpointStorage
replay [] = empty_storage
replay (c ∷ cs) = apply (replay cs) c

unfoldable pub same_breakpoint : Breakpoint → Breakpoint → Bool
same_breakpoint (global_at a) (global_at b) = a == b
same_breakpoint (local_at a i) (local_at b j) = if i == j then a == b else false
same_breakpoint (global_at a) (local_at b j) = false
same_breakpoint (local_at a i) (global_at b) = false

-- What the history says of a breakpoint.
unfoldable pub is_set : List Change → Breakpoint → Bool
is_set [] b = false
is_set (added c ∷ cs) b = if same_breakpoint c b then true else is_set cs b
is_set (removed c ∷ cs) b = if same_breakpoint c b then false else is_set cs b
is_set (cleared ∷ cs) b = false

globals :
    (cs : List Change) (a : ℕ) → contains (replay cs).global_breakpoints a ≡ is_set cs (global_at a)
unfolding replay apply is_set same_breakpoint empty_storage add_breakpoint remove_breakpoint clear
    contains
globals [] a = refl
globals (added (global_at b) ∷ cs) a =
    rw (contains-insert (replay cs).global_breakpoints b a, globals cs a) refl
globals (added (local_at b i) ∷ cs) a = globals cs a
globals (removed (global_at b) ∷ cs) a =
    rw (contains-erase (replay cs).global_breakpoints b a, globals cs a) refl
globals (removed (local_at b i) ∷ cs) a = globals cs a
globals (cleared ∷ cs) a = refl

locals :
    (cs : List Change) (a w : ℕ)
    → contains (set_of (replay cs).local_breakpoints w) a ≡ is_set cs (local_at a w)
unfolding replay apply is_set same_breakpoint empty_storage add_breakpoint remove_breakpoint clear
    contains set_of
locals [] a w = refl
locals (added (global_at b) ∷ cs) a w = locals cs a w
locals (added (local_at b i) ∷ cs) a w =
    let m = (replay cs).local_breakpoints in
    rw (set_of-put_set m i w (insert (set_of m i) b))
      (ground (arith, contains-insert (set_of m i) b a, locals cs a w))
locals (removed (global_at b) ∷ cs) a w = locals cs a w
locals (removed (local_at b i) ∷ cs) a w =
    let m = (replay cs).local_breakpoints in
    rw (set_of-put_set m i w (erase (set_of m i) b))
      (ground (arith, contains-erase (set_of m i) b a, locals cs a w))
locals (cleared ∷ cs) a w = refl

-- For every history of additions, removals and clearings of an empty storage, every address and every
-- wavefront: the one-argument `has_breakpoint` answers whether the global breakpoint at the address is set by
-- the history, and the two-argument one whether that or the wavefront's local breakpoint is.
pub has_breakpoint-replay :
    (cs : List Change) (address wf_id : ℕ)
    → (has_breakpoint (replay cs) address ≡ is_set cs (global_at address))
      × (has_breakpoint_in (replay cs) address wf_id
          ≡ (is_set cs (global_at address) || is_set cs (local_at address wf_id)))
unfolding has_breakpoint has_breakpoint_in
has_breakpoint-replay cs address wf_id =
    (globals cs address, rw (globals cs address, locals cs address wf_id) refl)
