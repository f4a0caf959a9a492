-- ===== src/Tx/Atomic.antt =====
-- Steps that change nothing where they raise.
use mathlib.Core.Path.{subst}
use aizim.Prelude.{◌≡◌, refl, sym, ap, ◌∙◌, Bool, true, false, arith}
use aizim.Outcome.{Failure, Outcome, ok, raised}
use aizim.Tx.{Tx, lift, gets, transaction, rename_failure, refuse_if, renamed, then_run, ◌>>=◌}
use aizim.Tx.Rules.{Moves, transaction-raised}

pub record IsAtomic {S A : Type 0} (m : Tx S A) : Type 0 where
  pub at : (s s' : S) (e : Failure) → m s ≡ (raised e, s') → s' ≡ s

-- A step that changes nothing at all.
pub record IsReading {S A : Type 0} (m : Tx S A) : Type 0 where
  pub at : (s : S) → (m s).1 ≡ s

module _ {S A : Type 0} where
  pub IsReading-lift : (r : Outcome A) → IsReading {S = S} (lift r)
  unfolding lift
  IsReading-lift r = record { at = λ s. refl }

  pub IsReading-gets : (f : S → A) → IsReading (gets f)
  unfolding gets
  IsReading-gets f = record { at = λ s. refl }

  pub IsAtomic-transaction : (m : Tx S A) → IsAtomic (transaction m)
  IsAtomic-transaction m = record { at = λ s s' e h. transaction-raised m h }

  pub IsAtomic-rename_failure :
      (f : Failure → Failure) (m : Tx S A) → IsAtomic m → IsAtomic (rename_failure f m)
  unfolding rename_failure
  IsAtomic-rename_failure f m k = record { at = λ s s' e h. go s s' e (m s) refl h }
    where
      go :
          (s s' : S) (e : Failure) (r : Outcome A × S)
          → m s ≡ r
          → ◌≡◌ {A = Outcome A × S} (renamed f r.0, r.1) (raised e, s')
          → s' ≡ s
      go s s' e (ok a, t) p h = ground arith
      go s s' e (raised x, t) p h = ap (λ (r : Outcome A × S). r.1) (sym h) ∙ k.at s t x p

pub IsReading-refuse_if :
    {S : Type 0} (b : Bool) (x : Failure) → IsReading {S = S} (refuse_if {0} b x)
unfolding refuse_if
IsReading-refuse_if true x = record { at = λ s. refl }
IsReading-refuse_if false x = record { at = λ s. refl }

pub IsReading-bind :
    {S A B : Type 0} (m : Tx S A) (f : A → Tx S B)
    → IsReading m
    → ((a : A) → IsReading (f a))
    → IsReading (m >>= f)
unfolding ◌>>=◌
IsReading-bind {S} {A} {B} m f r k = record { at = λ s. go s (m s) (r.at s) }
  where
    go : (s : S) (x : Outcome A × S) → x.1 ≡ s → (then_run f x).1 ≡ s
    go s (ok a, t) p = (k a).at t ∙ p
    go s (raised e, t) p = p

pub IsAtomic-bind :
    {S A B : Type 0} (m : Tx S A) (f : A → Tx S B)
    → IsReading m
    → ((a : A) → IsAtomic (f a))
    → IsAtomic (m >>= f)
unfolding ◌>>=◌
IsAtomic-bind {S} {A} {B} m f r k = record { at = λ s s' e h. go s s' e (m s) (r.at s) h }
  where
    go :
        (s s' : S) (e : Failure) (x : Outcome A × S)
        → x.1 ≡ s
        → then_run f x ≡ (raised e, s')
        → s' ≡ s
    go s s' e (ok a, t) p h = (k a).at t s' e h ∙ p
    go s s' e (raised y, t) p h = ap (λ (r : Outcome B × S). r.1) (sym h) ∙ p

-- An atomic step moves the store as its successful runs do.
pub atomic_moves :
    {S A : Type 0} (R : S → S → Type 0)
    → ((s : S) → R s s)
    → (m : Tx S A) → IsAtomic m
    → Moves R m
    → (s : S) → R s (m s).1
atomic_moves {S} {A} R same m k moves s = go (m s) refl
  where
    go : (r : Outcome A × S) → m s ≡ r → R s r.1
    go (ok a, t) p = moves.at s t a p
    go (raised x, t) p = subst (R s) (sym (k.at s t x p)) (same s)

pub ruleset atomic_rules = (
  IsReading-lift, IsReading-gets, IsReading-refuse_if, IsAtomic-transaction,
  IsAtomic-rename_failure, IsAtomic-bind,
)

pub ruleset reading_rules = (IsReading-lift, IsReading-gets, IsReading-refuse_if, IsReading-bind)
