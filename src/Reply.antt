-- ===== src/Reply.antt =====
-- What a call of the C++ code comes back with: a value or an exception.
use terminal_sim.Prelude.{◌≡◌, ◌⊎◌, inl, inr, refl, Bool, true, false, Option, none, some}

-- `std::invalid_argument` and `std::runtime_error`.
pub data Failure : Type 0 where
  invalid_argument runtime_error : Failure

pub data Reply (A : Type 0) : Type 0 where
  ok : A → Reply A
  throws : Failure → Reply A

infixl 5 ◌>>=◌ ◌>>◌
abbrev pub ◌>>=◌ : {A B : Type 0} → Reply A → (A → Reply B) → Reply B
throws f >>= next = throws f
ok a >>= next = next a

abbrev pub ◌>>◌ : {B : Type 0} → Reply (Unit {0}) → Reply B → Reply B
first >> next = first >>= λ _. next

-- `if (!holds) throw std::invalid_argument(...)`.
abbrev pub require : Bool → Reply (Unit {0})
require holds = elim holds as (λ _. Reply (Unit {0})) [
  | true ↦ ok tt
  | false ↦ throws Failure.invalid_argument
]

abbrev pub or_throw : {A : Type 0} → Option A → Reply A
or_throw none = throws Failure.invalid_argument
or_throw (some a) = ok a

pub Reply-cases :
    {A : Type 0} (x : Reply A) → ((a : A) × (x ≡ ok a)) ⊎ ((f : Failure) × (x ≡ throws f))
Reply-cases (ok a) = inl (a, refl)
Reply-cases (throws f) = inr (f, refl)

-- A call that came back ran every part of it.
pub >>=-ok :
    {A B : Type 0} (m : Reply A) (next : A → Reply B) {b : B}
    → (m >>= next) ≡ ok b
    → (a : A) × (m ≡ ok a) × (next a ≡ ok b)
>>=-ok (throws f) next h = cc
>>=-ok (ok a) next h = (a, refl, h)

pub ok_inj : {A : Type 0} {a b : A} → ok a ≡ ok b → a ≡ b
ok_inj h = cc

-- A call that came back after a test passed it.
pub require-ok :
    {B : Type 0} (holds : Bool) (next : Reply B) {b : B}
    → (require holds >> next) ≡ ok b
    → (holds ≡ true) × (next ≡ ok b)
require-ok true next h = (refl, h)
require-ok false next h = cc
