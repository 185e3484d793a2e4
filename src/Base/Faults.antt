-- ===== src/Base/Faults.antt =====
-- Results of code that can abort: a failed `assert`, an unsupported instruction (an `assert` too),
-- a C++ exception, or undefined behaviour.
use mathlib.Core.Path.{◌≡◌, refl}
use mathlib.Core.Bool.{Bool, true, false}
use mathlib.Core.Option.{Option, none, some}
use red_o_lator.Base.Tests.{if◌then◌else◌}

pub data Fault : Type 0 where
  assertion unsupported undefined bad_variant runtime_error no_fuel : Fault

pub data Result {ℓ} (Value : Type ℓ) : Type ℓ where
  fail : Fault → Result Value
  ok : Value → Result Value

infixl 5 ◌>>=◌
abbrev pub ◌>>=◌ {ℓ κ} :
    {Value : Type ℓ} {Next : Type κ} → Result Value → (Value → Result Next) → Result Next
fail fault >>= next = fail fault
ok value >>= next = next value

infixl 5 ◌>>◌
abbrev pub ◌>>◌ {κ} : {Next : Type κ} → Result (Unit {0}) → Result Next → Result Next
check >> next = check >>= λ done. next

abbrev pub assert : Bool → Result (Unit {0})
assert true = ok tt
assert false = fail Fault.assertion

abbrev pub or_fail {ℓ} : {A : Type ℓ} → Option A → Fault → Result A
or_fail none e = fail e
or_fail (some a) e = ok a

-- A chain that returns has a first step that returned.
pub >>=-eq-ok {ℓ κ} :
    {Value : Type ℓ} {Next : Type κ} (first : Result Value) (next : Value → Result Next)
    → {result : Next} → (first >>= next) ≡ ok result
    → (value : Value) × (first ≡ ok value) × (next value ≡ ok result)
>>=-eq-ok (fail fault) next h = cc
>>=-eq-ok (ok value) next h = (value, refl, h)

-- A chain fails if what follows its first step never returns.
pub >>=-never {ℓ κ} :
    {A : Type ℓ} {B : Type κ} (m : Result A) (f : A → Result B)
    → ((a : A) (b : B) → ¬ (f a ≡ ok b))
    → (b : B) → ¬ ((m >>= f) ≡ ok b)
>>=-never (ok a) f h b e = h a b e
>>=-never (fail x) f h b e = cc

-- A chain fails with its first step.
pub >>=-fail {ℓ κ} :
    {A : Type ℓ} {B : Type κ} (m : Result A) (f : A → Result B) {x : Fault}
    → m ≡ fail x
    → (m >>= f) ≡ fail x
>>=-fail (ok a) f h = cc
>>=-fail (fail y) f h = cc

pub fail-never {ℓ} : {A : Type ℓ} {m : Result A} {x : Fault} → m ≡ fail x → (b : A) → ¬ (m ≡ ok b)
fail-never h b e = cc

-- A chain runs out of fuel only where one of its steps does.
abbrev pub HasFuel {ℓ} : {A : Type ℓ} → Result A → Type ℓ
HasFuel r = ¬ (r ≡ fail Fault.no_fuel)

pub >>=-HasFuel {ℓ κ} :
    {A : Type ℓ} {B : Type κ} (m : Result A) (f : A → Result B)
    → HasFuel m
    → ((a : A) → HasFuel (f a))
    → HasFuel (m >>= f)
>>=-HasFuel (ok a) f h k = k a
>>=-HasFuel (fail x) f h k = λ e. h cc

pub or_fail-HasFuel {ℓ} :
    {A : Type ℓ} (o : Option A) (x : Fault) → ¬ (x ≡ Fault.no_fuel) → HasFuel (or_fail o x)
or_fail-HasFuel none x h = λ e. h cc
or_fail-HasFuel (some a) x h = λ e. cc

pub choice-HasFuel {ℓ} :
    {A : Type ℓ} (b : Bool) {x y : Result A} → HasFuel x → HasFuel y → HasFuel (if b then x else y)
choice-HasFuel true h k = h
choice-HasFuel false h k = k

pub assert-HasFuel : (b : Bool) → HasFuel (assert b)
assert-HasFuel true = λ e. cc
assert-HasFuel false = λ e. cc
