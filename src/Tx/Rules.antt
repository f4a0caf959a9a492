-- ===== src/Tx/Rules.antt =====
-- Inversions: what a successful step says of its parts.
use mathlib.Core.Path.{subst}
use aizim.Prelude.{arith, ◌≡◌, refl, sym, ap, ◌∙◌, inl, inr, Bool, true, false}
use aizim.Outcome.{Failure, Outcome, ok, raised, Outcome-cases}
use aizim.Tx.{
  Tx, pure, raise, lift, gets, transaction, rename_failure, refuse_if, settle, renamed, then_run,
  ◌>>=◌,
}

pair-eq {ℓ} : {S A : Type ℓ} {x : Outcome A × S} {r : Outcome A} → x.0 ≡ r → x ≡ (r, x.1)
pair-eq {x = (r', s)} e = ground arith

raised-ne-ok {ℓ} :
    {S A : Type ℓ} (e : Failure) (s t : S) (a : A)
    → ◌≡◌ {A = Outcome A × S} (raised e, s) (ok a, t)
    → ⊥
raised-ne-ok e s t a p = ground arith

module _ {ℓ} {S A B : Type ℓ} where
  -- The two parts of a successful sequence.
  pub bind-inv :
      (m : Tx S A) (f : A → Tx S B) {s : S} {b : B} {s' : S}
      → (m >>= f) s ≡ (ok b, s')
      → (a : A) × (t : S) × (m s ≡ (ok a, t)) × (f a t ≡ (ok b, s'))
  unfolding ◌>>=◌
  bind-inv m f {s} {b} {s'} h = go (m s) refl
    where
      go :
          (r : Outcome A × S)
          → m s ≡ r
          → (a : A) × (t : S) × (m s ≡ (ok a, t)) × (f a t ≡ (ok b, s'))
      go (ok a, t) e = (a, t, e, subst (λ x. then_run f x ≡ (ok b, s')) e h)
      go (raised x, t) e =
          absurd (raised-ne-ok x t s' b (subst (λ y. then_run f y ≡ (ok b, s')) e h))

  -- A sequence whose first part succeeded goes on with the second.
  pub bind-ok :
      (m : Tx S A) (f : A → Tx S B) {s t : S} {a : A} → m s ≡ (ok a, t) → (m >>= f) s ≡ f a t
  unfolding ◌>>=◌
  bind-ok m f e = ap (then_run f) e

module _ {ℓ} {S A : Type ℓ} where
  pub transaction-ok :
      (m : Tx S A) {s t : S} {a : A} → m s ≡ (ok a, t) → transaction m s ≡ (ok a, t)
  unfolding transaction
  transaction-ok m {s} e = ap (settle s) e

  pub rename_failure-ok :
      (f : Failure → Failure) (m : Tx S A) {s t : S} {a : A}
      → m s ≡ (ok a, t)
      → rename_failure f m s ≡ (ok a, t)
  unfolding rename_failure
  rename_failure-ok f m {s} {t} {a} e = ap (λ r. (renamed f r.0, r.1)) e

  pub transaction-inv :
      (m : Tx S A) {s s' : S} {a : A} → transaction m s ≡ (ok a, s') → m s ≡ (ok a, s')
  unfolding transaction
  transaction-inv m {s} {s'} {a} h = go (m s) refl h
    where
      go : (r : Outcome A × S) → m s ≡ r → settle s r ≡ (ok a, s') → m s ≡ (ok a, s')
      go (ok b, t) e p = e ∙ p
      go (raised x, t) e p = absurd (raised-ne-ok x s s' a p)

  -- A transaction that raises leaves the store as it was.
  pub transaction-raised :
      (m : Tx S A) {s s' : S} {e : Failure} → transaction m s ≡ (raised e, s') → s' ≡ s
  unfolding transaction
  transaction-raised m {s} {s'} {e} h = go (m s) h
    where
      go : (r : Outcome A × S) → settle s r ≡ (raised e, s') → s' ≡ s
      go (ok b, t) p = absurd (raised-ne-ok e s' t b (sym p))
      go (raised x, t) p = ground arith

  pub rename_failure-inv :
      (f : Failure → Failure) (m : Tx S A) {s s' : S} {a : A}
      → rename_failure f m s ≡ (ok a, s')
      → m s ≡ (ok a, s')
  unfolding rename_failure
  rename_failure-inv f m {s} {s'} {a} h = go (m s) refl h
    where
      go :
          (r : Outcome A × S)
          → m s ≡ r
          → ◌≡◌ {A = Outcome A × S} (renamed f r.0, r.1) (ok a, s')
          → m s ≡ (ok a, s')
      go (ok b, t) e p = e ∙ p
      go (raised x, t) e p = absurd (raised-ne-ok (f x) t s' a p)

module _ {ℓ} {S A : Type ℓ} where
  pub pure-inv : (b : A) (s : S) {a : A} {s' : S} → pure b s ≡ (ok a, s') → (s' ≡ s) × (a ≡ b)
  unfolding pure
  pure-inv b s h = (ground arith, ground arith)

  pub lift-inv :
      (r : Outcome A) (s : S) {a : A} {s' : S} → lift r s ≡ (ok a, s') → (s' ≡ s) × (r ≡ ok a)
  unfolding lift
  lift-inv r s h = (ground arith, ground arith)

  pub gets-inv : (f : S → A) (s : S) {a : A} {s' : S} → gets f s ≡ (ok a, s') → (s' ≡ s) × (a ≡ f s)
  unfolding gets
  gets-inv f s h = (ground arith, ground arith)

pub refuse_if-inv :
    {S : Type 0} (b : Bool) (e : Failure) (s : S) {u : Unit {0}} {s' : S}
    → refuse_if b e s ≡ (ok u, s')
    → (s' ≡ s) × (b ≡ false)
unfolding refuse_if
refuse_if-inv true e s h = (ground arith, ground arith)
refuse_if-inv false e s h = (ground arith, refl)

-- How a successful step moves the store.
pub record Moves {ℓ} {S A : Type ℓ} (R : S → S → Type ℓ) (m : Tx S A) : Type ℓ where
  pub at : (s s' : S) (a : A) → m s ≡ (ok a, s') → R s s'

module _ {ℓ} {S : Type ℓ} {R : S → S → Type ℓ} (same : (s : S) → R s s) where
  Moves-outcome : {A : Type ℓ} (m : Tx S A) → ((s : S) → (m s).1 ≡ s) → Moves R m
  Moves-outcome m h = record { at = λ s s' a e. subst (R s) (sym (h s) ∙ ap (λ r. r.1) e) (same s) }

  pub Moves-pure : {A : Type ℓ} (a : A) → Moves R (pure a)
  unfolding pure
  Moves-pure a = Moves-outcome _ (λ s. refl)

  pub Moves-raise : {A : Type ℓ} (e : Failure) → Moves R (raise {A = A} e)
  unfolding raise
  Moves-raise e = Moves-outcome _ (λ s. refl)

  pub Moves-lift : {A : Type ℓ} (r : Outcome A) → Moves R (lift r)
  unfolding lift
  Moves-lift r = Moves-outcome _ (λ s. refl)

  pub Moves-gets : {A : Type ℓ} (f : S → A) → Moves R (gets f)
  unfolding gets
  Moves-gets f = Moves-outcome _ (λ s. refl)

  pub Moves-refuse_if : (b : Bool) (e : Failure) → Moves R (refuse_if b e)
  unfolding refuse_if
  Moves-refuse_if true e = Moves-outcome _ (λ s. refl)
  Moves-refuse_if false e = Moves-outcome _ (λ s. refl)

  -- A transaction moves the store as its body does, or not at all.
  pub transaction_moves : {A : Type ℓ} (m : Tx S A) → Moves R m → (s : S) → R s (transaction m s).1
  transaction_moves m k s = elim (Outcome-cases (transaction m s).0) [
    | inl (a, e) ↦ k.at s _ a (transaction-inv m (pair-eq e))
    | inr (x, e) ↦ subst (R s) (sym (transaction-raised m (pair-eq e))) (same s)
  ]

module _ {ℓ} {S : Type ℓ} {R : S → S → Type ℓ} (chain : (s t u : S) → R s t → R t u → R s u) where
  pub Moves-bind :
      {A B : Type ℓ} (m : Tx S A) (f : A → Tx S B)
      → Moves R m
      → ((a : A) → Moves R (f a))
      → Moves R (m >>= f)
  Moves-bind m f km kf = record {
    at = λ s s' b e.
        let (a, t, p, q) = bind-inv m f e in chain s t s' (km.at s t a p) ((kf a).at t s' b q);
  }
