-- ===== src/Common/Run.antt =====
-- The ways in which a piece of the C++ code ends.
use rocsift_glog_fork.Common.{ap}
use mathlib.Core.Path.{◌≡◌, refl}
use mathlib.Core.Bool.{Bool, true, false}
use rocsift_glog_fork.Common.Tests.{if◌then◌else◌}
use mathlib.Core.Option.{Option, none, some}

-- `sift_status_t` of include/rocsift/status.h.
pub data SiftStatus : Type 0 where
  success error code_bug not_initialized not_privileged out_of_range : SiftStatus

-- What the code throws: a `StatusError`, or another `std::exception`.
pub data Exception : Type 0 where
  status_error : SiftStatus → Exception
  std_exception : Exception

-- `fault` is undefined behaviour, such as an access outside an array; `spin` means that the fuel
-- of a loop ran out.
pub data Run {ℓ} (A : Type ℓ) : Type ℓ where
  done : A → Run A
  throw : Exception → Run A
  fault : Run A
  spin : Run A

infixl 5 ◌>>=◌ ◌>>◌
abbrev pub ◌>>=◌ {ℓ κ} : {A : Type ℓ} {B : Type κ} → Run A → (A → Run B) → Run B
done a >>= f = f a
throw e >>= f = throw e
fault >>= f = fault
spin >>= f = spin

abbrev pub ◌>>◌ {ℓ κ} : {A : Type ℓ} {B : Type κ} → Run A → Run B → Run B
m >> k = m >>= λ _. k

-- `try { m } catch (std::exception &) { handler }`
abbrev pub try_catch {ℓ} : {A : Type ℓ} → Run A → (Exception → Run A) → Run A
try_catch (done a) h = done a
try_catch (throw e) h = h e
try_catch fault h = fault
try_catch spin h = spin

-- An access that is undefined where there is no value.
abbrev pub or_fault {ℓ} : {A : Type ℓ} → Option A → Run A
or_fault none = fault
or_fault (some a) = done a

pub done_inj {ℓ} : {A : Type ℓ} {a b : A} → done a ≡ done b → a ≡ b
done_inj h = cc

pub or_fault-eq-done {ℓ} : {A : Type ℓ} (o : Option A) {a : A} → or_fault o ≡ done a → o ≡ some a
or_fault-eq-done none h = cc
or_fault-eq-done (some b) h = ap some (done_inj h)

-- Inversion of a chain that returns.
pub >>=-eq-done {ℓ κ} :
    {A : Type ℓ} {B : Type κ} (m : Run A) (f : A → Run B) {b : B}
    → (m >>= f) ≡ done b
    → (a : A) × (m ≡ done a) × (f a ≡ done b)
>>=-eq-done (done a) f h = (a, refl, h)
>>=-eq-done (throw e) f h = cc
>>=-eq-done fault f h = cc
>>=-eq-done spin f h = cc

-- The code returns: it does not throw, does nothing undefined, and its loops end.
abbrev pub Returns {ℓ} : {A : Type ℓ} → Run A → Type 0
Returns (done a) = Unit
Returns (throw e) = ⊥
Returns fault = ⊥
Returns spin = ⊥

-- Nothing undefined is done and the loops end; the code may throw.
abbrev pub IsSafe {ℓ} : {A : Type ℓ} → Run A → Type 0
IsSafe (done a) = Unit
IsSafe (throw e) = Unit
IsSafe fault = ⊥
IsSafe spin = ⊥

pub IsSafe-bind {ℓ κ} :
    {A : Type ℓ} {B : Type κ} (m : Run A) (f : A → Run B)
    → IsSafe m
    → ((a : A) → IsSafe (f a))
    → IsSafe (m >>= f)
IsSafe-bind (done a) f h k = k a
IsSafe-bind (throw e) f h k = tt
IsSafe-bind fault f h k = h
IsSafe-bind spin f h k = h

pub IsSafe-if {ℓ} :
    {A : Type ℓ} (b : Bool) (m n : Run A) → IsSafe m → IsSafe n → IsSafe (if b then m else n)
IsSafe-if true m n h k = h
IsSafe-if false m n h k = k

-- A handler that returns makes of safe code code that returns.
pub Returns-try {ℓ} :
    {A : Type ℓ} (m : Run A) (f : Exception → Run A)
    → IsSafe m
    → ((e : Exception) → Returns (f e))
    → Returns (try_catch m f)
Returns-try (done a) f h k = tt
Returns-try (throw e) f h k = k e
Returns-try fault f h k = h
Returns-try spin f h k = h

-- Safe, with a property of what is returned.
abbrev pub Ensures {ℓ} : {A : Type ℓ} → (A → Type 0) → Run A → Type 0
Ensures P (done a) = P a
Ensures P (throw e) = Unit
Ensures P fault = ⊥
Ensures P spin = ⊥

pub Ensures-bind {ℓ κ} :
    {A : Type ℓ} {B : Type κ} (P : A → Type 0) (Q : B → Type 0) (m : Run A) (f : A → Run B)
    → Ensures P m
    → ((a : A) → P a → Ensures Q (f a))
    → Ensures Q (m >>= f)
Ensures-bind P Q (done a) f h k = k a h
Ensures-bind P Q (throw e) f h k = tt
Ensures-bind P Q fault f h k = absurd h
Ensures-bind P Q spin f h k = absurd h

pub Ensures-if {ℓ} :
    {A : Type ℓ} (P : A → Type 0) (b : Bool) (m n : Run A)
    → Ensures P m
    → Ensures P n
    → Ensures P (if b then m else n)
Ensures-if P true m n h k = h
Ensures-if P false m n h k = k
