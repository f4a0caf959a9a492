-- ===== src/Documents/Exclusive.antt =====
-- No two active leases are on one document or one path, through any calls on documents.
use mathlib.Core.Bool.{false≢true}
use aizim.Prelude.{
  ◌≡◌, sym, ap, ◌∙◌, ◌⊎◌, inl, inr, true, false, some, List, String, same_text, arith, eq_iff,
}
use aizim.Outcome.{ok}
use aizim.Json.{get, get_text, get_object}
use aizim.Events.{Stamp, stamped, type_name}
use aizim.Projections.{ProjectionRecord}
use aizim.Store.{upsert}
use aizim.Reducers.{event_state, next_record}
use aizim.Documents.{Formats, FileLease, LeaseState, lease_payload}
use aizim.Documents.Records.{StoredEvent, stored_event, lease_from_projection}
use aizim.Documents.Readings.{PosixLaws, lease_of-inv}
use aizim.Documents.Grants.{MayGrant}
use aizim.Documents.Active.{
  HasActive, upsert-row, lease_from_projection-inv, leases_of-row, any-false,
}
use aizim.Documents.Written.{grant_record}

ok-injective : {A : Type 0} {a b : A} → ok a ≡ ok b → a ≡ b
ok-injective h = ground arith

some-injective : {A : Type 0} {a b : A} → some a ≡ some b → a ≡ b
some-injective h = ground arith

module _ (formats : Formats) where
  -- Active leases on one document, or on one path, are one row.
  pub record IsExclusive (rs : List ProjectionRecord) : Type 0 where
    pub at :
        (j k : String) (x y : LeaseState)
        → HasActive formats rs j x
        → HasActive formats rs k y
        → (x.document_id ≡ y.document_id) ⊎ (x.relative_path ≡ y.relative_path)
        → j ≡ k

  -- A row that holds no active lease.
  pub record IsPassive (c : ProjectionRecord) : Type 0 where
    pub at :
        (x : LeaseState)
        → c.projection_name ≡ "leases"
        → lease_from_projection formats c ≡ ok x
        → x.active ≡ true
        → ⊥

  -- An active lease of a new table is the written row's or an old one.
  HasActive-upsert :
      (c : ProjectionRecord) (rs : List ProjectionRecord) (j : String) (x : LeaseState)
      → HasActive formats (upsert c rs) j x
      → ((j ≡ c.entity_id)
          × (lease_from_projection formats c ≡ ok x)
          × (c.projection_name ≡ "leases")
          × (x.active ≡ true))
        ⊎ HasActive formats rs j x
  HasActive-upsert c rs j x a = elim (upsert-row c a.row rs a.stored) [
    | inl e ↦ inl (
      sym a.keyed ∙ ap (λ (r : ProjectionRecord). r.entity_id) e,
      ap (lease_from_projection formats) (sym e) ∙ a.read,
      ap (λ (r : ProjectionRecord). r.projection_name) (sym e) ∙ a.named,
      a.active,
    )
    | inr m ↦ inr (record {
      row = a.row;
      stored = m;
      named = a.named;
      keyed = a.keyed;
      read = a.read;
      active = a.active;
    })
  ]

  HasActive-passive :
      (c : ProjectionRecord) (rs : List ProjectionRecord) (j : String) (x : LeaseState)
      → IsPassive c
      → HasActive formats (upsert c rs) j x
      → HasActive formats rs j x
  HasActive-passive c rs j x passive a = elim (HasActive-upsert c rs j x a) [
    | inl (key, read, named, active) ↦ absurd (passive.at x named read active)
    | inr old ↦ old
  ]

  pub IsExclusive-passive :
      (c : ProjectionRecord) (rs : List ProjectionRecord)
      → IsPassive c
      → IsExclusive rs
      → IsExclusive (upsert c rs)
  IsExclusive-passive c rs passive e = record {
    at = λ j k x y a b.
        e.at j k x y (HasActive-passive c rs j x passive a) (HasActive-passive c rs k y passive b);
  }

  pub IsPassive-documents : (c : ProjectionRecord) → c.projection_name ≡ "documents" → IsPassive c
  IsPassive-documents c d = record {
    at = λ x n read active. absurd (false≢true ((eq_iff "documents" "leases").1 (sym d ∙ n)));
  }

  module _ (laws : PosixLaws formats) where
    -- A row whose event is not the grant of a lease.
    pub IsPassive-event :
        (c : ProjectionRecord) (stored : StoredEvent)
        → stored_event c ≡ ok stored
        → same_text stored.event_type "LeaseGranted" ≡ false
        → IsPassive c
    IsPassive-event c stored e n = record {
      at = λ x named read active.
          let (again, run, p, q) = lease_from_projection-inv formats laws c x read in
          let (readable, same_run, is_active, lease_id, document_id, path) =
            lease_of-inv formats laws again.event_type run again.payload x q in
          let same = ok-injective (sym p ∙ e) in
          absurd (
            false≢true (
              sym n
              ∙ ap (λ (s : StoredEvent). same_text s.event_type "LeaseGranted") (sym same)
              ∙ sym is_active
              ∙ active));
    }

    granted-fields :
        (s : Stamp) (lease : FileLease) (path name entity : String) (rs : List ProjectionRecord)
        (x : LeaseState)
        → lease_from_projection formats (grant_record formats s lease path name entity rs) ≡ ok x
        → (x.document_id ≡ lease.document_id)
          × (x.relative_path ≡ formats.as_posix (formats.as_posix path))
    unfolding grant_record stored_event event_state next_record stamped lease_payload get_text
        get_object get type_name
    granted-fields s lease path name entity rs x read =
        let (stored, run, p, q) =
          lease_from_projection-inv formats laws (grant_record formats s lease path name entity rs)
            x read in
        let same = ap (λ (z : StoredEvent). z.payload) (sym (ok-injective p)) in
        let (readable, same_run, is_active, lease_id, document_id, (text, is_text, is_path)) =
          lease_of-inv formats laws stored.event_type run stored.payload x q in
        (
          some-injective (sym document_id ∙ ap (get_text "document_id") same),
          is_path
              ∙ ap formats.as_posix
                  (some-injective (sym is_text ∙ ap (get_text "relative_path") same)),
        )

    -- An old active lease meets neither the document nor the path of a lease that may be granted.
    granted-apart :
        (s : Stamp) (lease : FileLease) (path name entity j : String) (rs : List ProjectionRecord)
        (x y : LeaseState)
        → MayGrant formats lease (formats.as_posix path) s.now rs
        → lease_from_projection formats
            (grant_record formats s lease (formats.as_posix path) name entity rs)
          ≡ ok x
        → HasActive formats rs j y
        → (x.document_id ≡ y.document_id) ⊎ (x.relative_path ≡ y.relative_path)
        → ⊥
    granted-apart s lease path name entity j rs x y may read old clash =
        let (document, place) =
          granted-fields s lease (formats.as_posix path) name entity rs x read in
        let row = leases_of-row formats laws rs may.active j y may.leases old in
        let other_document = any-false _ may.active y may.free_document row in
        let other_path = any-false _ may.active y may.free_path row in
        let at_path = place ∙ ap formats.as_posix (laws.same path) ∙ laws.same path in
        elim clash [
          | inl e ↦ absurd (
              false≢true (
                sym other_document ∙ (eq_iff y.document_id lease.document_id).1 (sym e ∙ document)))
          | inr e ↦ absurd (
              false≢true (
                sym other_path
                ∙ (eq_iff y.relative_path (formats.as_posix path)).1 (sym e ∙ at_path)))
        ]

    pub granted-IsExclusive :
        (s : Stamp) (lease : FileLease) (path entity : String) (rs : List ProjectionRecord)
        → MayGrant formats lease (formats.as_posix path) s.now rs
        → IsExclusive rs
        → IsExclusive
            (upsert (grant_record formats s lease (formats.as_posix path) "leases" entity rs) rs)
    unfolding grant_record next_record
    granted-IsExclusive s lease path entity rs may e = record {
      at = λ j k x y a b clash.
          let c = grant_record formats s lease (formats.as_posix path) "leases" entity rs in
          elim (HasActive-upsert c rs j x a) [
            | inl (key, read, named, active) ↦ elim (HasActive-upsert c rs k y b) [
              | inl (key', read', named', active') ↦ key ∙ sym key'
              | inr old ↦
                  absurd (granted-apart s lease path "leases" entity k rs x y may read old clash)
            ]
            | inr old ↦ elim (HasActive-upsert c rs k y b) [
              | inl (key', read', named', active') ↦ absurd (
                  granted-apart s lease path "leases" entity j rs y x may read' old
                    (swap x y clash))
              | inr old' ↦ e.at j k x y old old' clash
            ]
          ];
    }
      where
        swap :
            (x y : LeaseState)
            → (x.document_id ≡ y.document_id) ⊎ (x.relative_path ≡ y.relative_path)
            → (y.document_id ≡ x.document_id) ⊎ (y.relative_path ≡ x.relative_path)
        swap x y (inl e) = inl (sym e)
        swap x y (inr e) = inr (sym e)
