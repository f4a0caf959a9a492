-- ===== src/Documents/Active.antt =====
-- The active leases among the projections, and what a written row does to them.
use mathlib.Core.List.{Memᴰ}
use mathlib.Core.Path.{subst}
use aizim.Prelude.{
  ◌≡◌, refl, sym, ap, ◌∙◌, ◌⊎◌, inl, inr, Bool, true, false, ◌||◌, List, [], ◌∷◌, String, same_text,
  if◌then◌else◌, arith, eq_iff,
}
use aizim.Outcome.{Outcome, ok, raised, bind-ok_inv, ◌>>=◌}
use aizim.Projections.{ProjectionRecord, at_key, row_before}
use aizim.Store.{upsert}
use aizim.Documents.{Formats, LeaseState, require_some}
use aizim.Documents.Records.{
  StoredEvent, stored_event, lease_of, lease_from_projection, is_active_document_lease_projection,
}
use aizim.Documents.Readings.{PosixLaws, lease_of-inv}
use aizim.Documents.Snapshots.{cons_where, leases_of}
use aizim.Documents.Operations.{any}

-- A row of a new table is the one that was written, or an old one.
pub upsert-row :
    (c r : ProjectionRecord) (rs : List ProjectionRecord)
    → Memᴰ r (upsert c rs)
    → (r ≡ c) ⊎ Memᴰ r rs
unfolding upsert
upsert-row c r [] (Memᴰ.head e) = inl e
upsert-row c r [] (Memᴰ.tail m) = inr m
upsert-row c r (x ∷ rs) m =
    go (at_key c.projection_name c.entity_id x) (row_before c x) (λ n. upsert-row c r rs n) m
  where
    go :
        (same before : Bool)
        → (Memᴰ r (upsert c rs) → (r ≡ c) ⊎ Memᴰ r rs)
        → Memᴰ r (if same then c ∷ rs else if before then c ∷ x ∷ rs else x ∷ upsert c rs)
        → (r ≡ c) ⊎ Memᴰ r (x ∷ rs)
    go true before k (Memᴰ.head e) = inl e
    go true before k (Memᴰ.tail m) = inr (Memᴰ.tail m)
    go false true k (Memᴰ.head e) = inl e
    go false true k (Memᴰ.tail m) = inr m
    go false false k (Memᴰ.head e) = inr (Memᴰ.head e)
    go false false k (Memᴰ.tail m) = elim (k m) [ inl e ↦ inl e | inr n ↦ inr (Memᴰ.tail n) ]

ok-injective : {A : Type 0} {a b : A} → ok a ≡ ok b → a ≡ b
ok-injective h = ground arith

-- One row of `_active_leases`: what it makes of the row and of the rows after it.
abbrev gathered :
    Bool → Outcome Bool → Outcome LeaseState → Outcome (List LeaseState) → Outcome (List LeaseState)
gathered named is_active first rest =
    if named then (is_active >>= λ active. cons_where active first rest) else rest

gathered-rest :
    (named : Bool) (is_active : Outcome Bool) (first : Outcome LeaseState)
    (rest : Outcome (List LeaseState)) (active : List LeaseState)
    → gathered named is_active first rest ≡ ok active
    → (xs : List LeaseState) × (rest ≡ ok xs)
      × ((active ≡ xs) ⊎ ((x : LeaseState) × (active ≡ x ∷ xs)))
gathered-rest false is_active first rest active h = (active, h, inl refl)
gathered-rest true (raised e) first rest active h = ground arith
gathered-rest true (ok false) first rest active h = (active, h, inl refl)
gathered-rest true (ok true) first rest active h =
    let (x, p, h1) = bind-ok_inv first _ active h in
    let (xs, q, h2) = bind-ok_inv rest _ active h1 in (xs, q, inr (x, sym (ok-injective h2)))

gathered-first :
    (first : Outcome LeaseState) (rest : Outcome (List LeaseState)) (active : List LeaseState)
    (lease : LeaseState)
    → gathered true (ok true) first rest ≡ ok active
    → first ≡ ok lease
    → Memᴰ lease active
gathered-first first rest active lease h is_first =
    let (x, p, h1) = bind-ok_inv first _ active h in
    let (xs, q, h2) = bind-ok_inv rest _ active h1 in
    subst (Memᴰ lease) (ok-injective h2) (Memᴰ.head (ok-injective (sym is_first ∙ p)))

module _ (formats : Formats) where
  -- An active lease under a key.
  pub record HasActive (rs : List ProjectionRecord) (key : String) (lease : LeaseState)
      : Type 0 where
    pub row : ProjectionRecord
    pub stored : Memᴰ row rs
    pub named : row.projection_name ≡ "leases"
    pub keyed : row.entity_id ≡ key
    pub read : lease_from_projection formats row ≡ ok lease
    pub active : lease.active ≡ true

  module _ (laws : PosixLaws formats) where
    -- The parts of a lease that was read.
    pub lease_from_projection-inv :
        (r : ProjectionRecord) (lease : LeaseState)
        → lease_from_projection formats r ≡ ok lease
        → (stored : StoredEvent) × (run : String) × (stored_event r ≡ ok stored)
          × (lease_of formats stored.event_type run stored.payload ≡ ok lease)
    unfolding lease_from_projection
    lease_from_projection-inv r lease h =
        let (stored, p, h1) = bind-ok_inv (stored_event r) _ lease h in
        let (run, q, h2) = bind-ok_inv (require_some _ stored.run_id) _ lease h1 in
        (stored, run, p, h2)

    lease_from_projection-active :
        (r : ProjectionRecord) (lease : LeaseState)
        → lease_from_projection formats r ≡ ok lease
        → is_active_document_lease_projection r ≡ ok lease.active
    unfolding is_active_document_lease_projection
    lease_from_projection-active r lease h =
        let (stored, run, p, q) = lease_from_projection-inv r lease h in
        let (readable, same_run, active, lease_id, document_id, path) =
          lease_of-inv formats laws stored.event_type run stored.payload lease q in
        ap (λ o. o >>= λ (x : StoredEvent). ok (same_text x.event_type "LeaseGranted")) p
        ∙ ap ok (sym active)

    gathered-row :
        (rs : List ProjectionRecord) (active : List LeaseState) (row : ProjectionRecord)
        (lease : LeaseState)
        → leases_of formats rs ≡ ok active
        → Memᴰ row rs
        → row.projection_name ≡ "leases"
        → lease_from_projection formats row ≡ ok lease
        → lease.active ≡ true
        → Memᴰ lease active
    unfolding leases_of
    gathered-row [] active row lease h m n p a = elim m [ ]
    gathered-row (r ∷ rs) active row lease h (Memᴰ.head e) n p a =
        let read = ap (lease_from_projection formats) (sym e) ∙ p in
        let named =
          (eq_iff r.projection_name "leases").1
            (ap (λ (x : ProjectionRecord). x.projection_name) (sym e) ∙ n) in
        let is_active = lease_from_projection-active r lease read ∙ ap ok a in
        gathered-first (lease_from_projection formats r) (leases_of formats rs) active lease
          (ap (λ b. gathered b (ok true) (lease_from_projection formats r) (leases_of formats rs))
              (sym named)
            ∙ ap
                (λ o.
                  gathered (same_text r.projection_name "leases") o
                    (lease_from_projection formats r) (leases_of formats rs))
                (sym is_active)
            ∙ h)
          read
    gathered-row (r ∷ rs) active row lease h (Memᴰ.tail m) n p a =
        let (xs, rest, shape) =
          gathered-rest (same_text r.projection_name "leases")
            (is_active_document_lease_projection r) (lease_from_projection formats r)
            (leases_of formats rs) active h in
        let found = gathered-row rs xs row lease rest m n p a in
        elim shape [
          | inl e ↦ subst (Memᴰ lease) (sym e) found
          | inr (x, e) ↦ subst (Memᴰ lease) (sym e) (Memᴰ.tail found)
        ]

    -- Every active lease is among those that `_active_leases` gives.
    pub leases_of-row :
        (rs : List ProjectionRecord) (active : List LeaseState) (key : String) (lease : LeaseState)
        → leases_of formats rs ≡ ok active
        → HasActive rs key lease
        → Memᴰ lease active
    leases_of-row rs active key lease h a =
        gathered-row rs active a.row lease h a.stored a.named a.read a.active

or-false : (a b : Bool) → (a || b) ≡ false → (a ≡ false) × (b ≡ false)
or-false false b h = (refl, h)
or-false true b h = ground arith

pub any-false :
    {A : Type 0} (p : A → Bool) (xs : List A) (x : A) → any p xs ≡ false → Memᴰ x xs → p x ≡ false
any-false p [] x h m = elim m [ ]
any-false p (y ∷ xs) x h (Memᴰ.head e) = ap p e ∙ (or-false (p y) (any p xs) h).0
any-false p (y ∷ xs) x h (Memᴰ.tail m) = any-false p xs x (or-false (p y) (any p xs) h).1 m
