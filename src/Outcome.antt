-- ===== src/Outcome.antt =====
-- The exceptions of the modelled modules as values, and the sum that a fallible function returns.
use aizim.Json.{ℤ}
use aizim.Prelude.{arith, String, ◌≡◌, refl, Bool, true, false, ◌⊎◌, inl, inr}

-- One constructor for each exception class, with the code or the reason that it carries.
pub data Failure : Type 0 where
  value_error : String → Failure
  key_error : String → Failure
  projection_authority_error : String → String → Failure
  duplicate_event_error : String → Failure
  integrity_error : String → Failure
  document_state_error : String → Failure
  control_operation_error : String → Failure
  event_validation_error : String → String → Failure
  controller_execution_error : String → Failure
  contribution_validation_error : String → Failure
  incompatible_event_schema_error : ℤ → Failure
  gateway_transport_error : String → Failure
  incomplete_read_error : Failure
  unicode_decode_error : Failure

pub data Outcome {ℓ} (A : Type ℓ) : Type ℓ where
  ok : A → Outcome A
  raised : Failure → Outcome A

infixl 10 ◌>>=◌ ◌>>◌
abbrev pub ◌>>=◌ {ℓ κ} : {A : Type ℓ} {B : Type κ} → Outcome A → (A → Outcome B) → Outcome B
ok a >>= f = f a
raised e >>= f = raised e

abbrev pub ◌>>◌ {ℓ} : {B : Type ℓ} → Outcome (Unit {0}) → Outcome B → Outcome B
m >> k = m >>= λ _. k

-- `if test: raise e`
abbrev pub raise_if : Bool → Failure → Outcome (Unit {0})
raise_if true e = raised e
raise_if false e = ok tt

pub Outcome-cases {ℓ} :
    {A : Type ℓ} (r : Outcome A) → ((a : A) × (r ≡ ok a)) ⊎ ((e : Failure) × (r ≡ raised e))
Outcome-cases (ok a) = inl (a, refl)
Outcome-cases (raised e) = inr (e, refl)

-- The parts of a successful chain.
pub bind-ok_inv {ℓ κ} :
    {A : Type ℓ} {B : Type κ} (m : Outcome A) (f : A → Outcome B) (b : B)
    → (m >>= f) ≡ ok b
    → (a : A) × (m ≡ ok a) × (f a ≡ ok b)
bind-ok_inv (ok a) f b h = (a, refl, h)
bind-ok_inv (raised x) f b h = ground arith
