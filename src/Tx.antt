-- ===== src/Tx.antt =====
-- Code that reads and writes a store and may raise. What was written before a raise stays written,
-- so the store comes back beside the failure too; `transaction` is what undoes it.
pub mod Atomic
pub mod Rules
use aizim.Prelude.{Bool, true, false}
use aizim.Outcome.{Failure, Outcome, ok, raised}

abbrev pub Tx {ℓ} : Type ℓ → Type ℓ → Type ℓ
Tx S A = S → Outcome A × S

module _ {ℓ} {S A : Type ℓ} where
  unfoldable pub pure : A → Tx S A
  pure a s = (ok a, s)

  unfoldable pub raise : Failure → Tx S A
  raise e s = (raised e, s)

  unfoldable pub lift : Outcome A → Tx S A
  lift r s = (r, s)

  unfoldable pub gets : (S → A) → Tx S A
  gets f s = (ok (f s), s)

abbrev renamed {ℓ} : {A : Type ℓ} → (Failure → Failure) → Outcome A → Outcome A
renamed f (ok a) = ok a
renamed f (raised e) = raised (f e)

-- `BEGIN IMMEDIATE`, the body, then `COMMIT`, or `ROLLBACK` and the same exception.
module _ {ℓ} {S A : Type ℓ} where
  abbrev settle : S → Outcome A × S → Outcome A × S
  settle before (ok a, after) = (ok a, after)
  settle before (raised e, after) = (raised e, before)

  unfoldable pub transaction : Tx S A → Tx S A
  transaction m s = settle s (m s)

  -- `except`: the failure is renamed.
  unfoldable pub rename_failure : (Failure → Failure) → Tx S A → Tx S A
  rename_failure f m s = let (r, s') = m s in (renamed f r, s')

module _ {ℓ} {S A B : Type ℓ} where
  abbrev then_run : (A → Tx S B) → Outcome A × S → Outcome B × S
  then_run f (ok a, s) = f a s
  then_run f (raised e, s) = (raised e, s)

  infixl 10 ◌>>=◌ ◌>>◌
  unfoldable pub ◌>>=◌ : Tx S A → (A → Tx S B) → Tx S B
  unfolding pure raise lift gets
  ◌>>=◌ m f s = then_run f (m s)

  abbrev pub ◌>>◌ : Tx S A → Tx S B → Tx S B
  m >> n = m >>= λ _. n

-- `if test: raise e`, in a chain of steps
unfoldable pub refuse_if {ℓ} : {S : Type ℓ} → Bool → Failure → Tx S (Unit {ℓ})
refuse_if true e s = (raised e, s)
refuse_if false e s = (ok tt, s)
