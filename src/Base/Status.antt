-- ===== src/Base/Status.antt =====
-- The outcome of a call: a value, or a gRPC status with its code and the format of its message
-- (httperror.NewGrpcFromCtx and preconditionFailed). A failure of the database that the code
-- only wraps is `wrapped`.
use Prim.Native.String.{String}
use mathlib.Core.Path.{◌≡◌, refl}
use mathlib.Core.Logic.{◌↔◌}

pub data Code : Type 0 where
  unauthenticated permission_denied invalid_argument not_found already_exists : Code
  failed_precondition internal service_unavailable : Code

pub data Error : Type 0 where
  grpc : Code → String → Error
  wrapped : String → Error

pub data Result {ℓ} (A : Type ℓ) : Type ℓ where
  ok : A → Result A
  err : Error → Result A

infixl 5 ◌>>=◌
abbrev pub ◌>>=◌ {ℓ κ} : {A : Type ℓ} {B : Type κ} → Result A → (A → Result B) → Result B
ok a >>= f = f a
err e >>= f = err e

-- the value of a call that returns only an error
abbrev pub Done : Type 0
Done = Unit

pub ok-injective : {A : Type 0} (a b : A) → ok a ≡ ok b → a ≡ b
ok-injective a b e = cc

-- A chain gives a value exactly when each of its calls does.
pub bind_iff :
    {A B : Type 0} (r : Result A) (f : A → Result B) (b : B)
    → ((r >>= f) ≡ ok b) ↔ ((a : A) × (r ≡ ok a) × (f a ≡ ok b))
bind_iff (ok a) f b = (λ h. (a, refl, h), λ h. rw (ok-injective a h.0 h.1) h.2)
bind_iff (err e) f b = (λ h. cc, λ h. cc)

-- A check before a call: the call gives the value.
pub after_check :
    {A : Type 0} (check : Result Done) (r : Result A) (a : A) → (check >>= λ _. r) ≡ ok a → r ≡ ok a
after_check (ok tt) r a h = h
after_check (err e) r a h = cc

-- an error is no value
pub err-ne-ok : {A : Type 0} {d : Error} (x : A) → ◌≡◌ {A = Result A} (err d) (ok x) → ⊥
err-ne-ok x k = cc
