-- ===== src/Errors.antt =====
-- server/src/common/errors/app-error.ts: the errors that a handler throws, by status and code.
-- The message text is left out. `unique_violation` is Prisma's P2002, which the services test for.
use pactagent.Prelude.{String, Bool, true, false, ◌≡◌, refl}

pub data Error : Type 0 where
  authentication_error permission_error rate_limit_error : Error
  invalid_request not_found conflict : String → Error
  unique_violation : Error
  internal : String → Error

-- What a call gives: its value, or what it throws.
pub data Result (A : Type 0) : Type 0 where
  err : Error → Result A
  ok : A → Result A

-- `isUniqueConstraintError`
abbrev pub is_unique_constraint_error : Error → Bool
is_unique_constraint_error unique_violation = true
is_unique_constraint_error _ = false

-- `if (test) throw e;` and `if (!test) throw e;`
abbrev pub reject_if : Bool → Error → Result (Unit {0})
reject_if true e = err e
reject_if false e = ok tt

abbrev pub require : Bool → Error → Result (Unit {0})
require false e = err e
require true e = ok tt

module _ {A B : Type 0} where
  infixl 5 ◌>>=◌
  abbrev pub ◌>>=◌ : Result A → (A → Result B) → Result B
  ◌>>=◌ (err e) next = err e
  ◌>>=◌ (ok a) next = next a

infixl 5 ◌>>◌
abbrev pub ◌>>◌ : {B : Type 0} → Result (Unit {0}) → Result B → Result B
check >> rest = check >>= λ _. rest

-- A sequence that gives a value has had one from each of its two steps.
pub bound_ok :
    {A B : Type 0} (r : Result A) (next : A → Result B) {b : B}
    → (r >>= next) ≡ ok b
    → (a : A) × (r ≡ ok a) × (next a ≡ ok b)
bound_ok (ok a) next h = (a, refl, h)
bound_ok (err e) next h = absurd (cc)

pub same_ok : {A : Type 0} {a b : A} → ◌≡◌ {A = Result A} (ok a) (ok b) → a ≡ b
same_ok h = cc
