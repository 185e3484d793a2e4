-- ===== src/Breakpoint.antt =====
-- common/debugger/breakpoint: breakpoints and the two storages of them. A `std::set` is the sorted list of
-- its elements; an identifier of a wavefront is not negative.
pub mod Replay
use red_o_lator.Base.{
  ℕ, Bool, true, false, ◌||◌, List, [], ◌∷◌, ◌++◌, map, ltb, ◌==◌, if◌then◌else◌,
}

pub data Breakpoint : Type 0 where
  global_at : (address : ℕ) → Breakpoint
  local_at : (address wf_id : ℕ) → Breakpoint

-- `std::set<uint32_t>`
unfoldable pub contains : List ℕ → ℕ → Bool
contains [] a = false
contains (x ∷ xs) a = x == a || contains xs a

unfoldable pub insert : List ℕ → ℕ → List ℕ
insert [] a = a ∷ []
insert (x ∷ xs) a =
    let rest = x ∷ insert xs a in if ltb a x then a ∷ x ∷ xs else if x == a then x ∷ xs else rest

unfoldable pub erase : List ℕ → ℕ → List ℕ
erase [] a = []
erase (x ∷ xs) a = let rest = erase xs a in if x == a then rest else x ∷ rest

-- `std::map<int, std::set<uint32_t>>`: `operator[]` finds the empty set at a new key.
unfoldable pub set_of : List (ℕ × List ℕ) → ℕ → List ℕ
set_of [] k = []
set_of ((j, s) ∷ m) k = if j == k then s else set_of m k

unfoldable pub put_set : List (ℕ × List ℕ) → ℕ → List ℕ → List (ℕ × List ℕ)
put_set [] k s = (k, s) ∷ []
put_set ((j, t) ∷ m) k s = if j == k then (k, s) ∷ m else (j, t) ∷ put_set m k s

pub record BreakpointStorage : Type 0 where
  pub global_breakpoints : List ℕ
  pub local_breakpoints : List (ℕ × List ℕ)

unfoldable pub empty_storage : BreakpointStorage
empty_storage = record { global_breakpoints = []; local_breakpoints = [] }

unfoldable pub add_breakpoint : BreakpointStorage → Breakpoint → BreakpointStorage
add_breakpoint s (global_at address) = record s {
  global_breakpoints = insert s.global_breakpoints address;
}
add_breakpoint s (local_at address wf_id) = record s {
  local_breakpoints =
      put_set s.local_breakpoints wf_id (insert (set_of s.local_breakpoints wf_id) address);
}

unfoldable pub remove_breakpoint : BreakpointStorage → Breakpoint → BreakpointStorage
remove_breakpoint s (global_at address) = record s {
  global_breakpoints = erase s.global_breakpoints address;
}
remove_breakpoint s (local_at address wf_id) = record s {
  local_breakpoints =
      put_set s.local_breakpoints wf_id (erase (set_of s.local_breakpoints wf_id) address);
}

unfoldable pub clear : BreakpointStorage → BreakpointStorage
clear s = record { global_breakpoints = []; local_breakpoints = [] }

unfoldable pub has_breakpoint : BreakpointStorage → ℕ → Bool
has_breakpoint s address = contains s.global_breakpoints address

unfoldable pub has_breakpoint_in : BreakpointStorage → ℕ → ℕ → Bool
has_breakpoint_in s address wf_id =
    contains s.global_breakpoints address || contains (set_of s.local_breakpoints wf_id) address

unfoldable pub get_wavefront_breakpoints : BreakpointStorage → ℕ → List Breakpoint
get_wavefront_breakpoints s wf_id =
    map (λ a. global_at a) s.global_breakpoints
    ++ map (λ a. local_at a wf_id) (set_of s.local_breakpoints wf_id)

-- `WorkGroupBreakpointStorage`: a set of pairs of a type and an address, as a set for each type.
pub record WorkGroupBreakpointStorage : Type 0 where
  pub global_addresses : List ℕ
  pub local_addresses : List ℕ

unfoldable pub add_to_work_group :
    WorkGroupBreakpointStorage → Breakpoint → WorkGroupBreakpointStorage
add_to_work_group s (global_at address) = record s {
  global_addresses = insert s.global_addresses address;
}
add_to_work_group s (local_at address wf_id) = record s {
  local_addresses = insert s.local_addresses address;
}

unfoldable pub remove_from_work_group :
    WorkGroupBreakpointStorage → Breakpoint → WorkGroupBreakpointStorage
remove_from_work_group s (global_at address) = record s {
  global_addresses = erase s.global_addresses address;
}
remove_from_work_group s (local_at address wf_id) = record s {
  local_addresses = erase s.local_addresses address;
}

unfoldable pub check_breakpoint : WorkGroupBreakpointStorage → ℕ → Bool
check_breakpoint s address =
    contains s.local_addresses address || contains s.global_addresses address
