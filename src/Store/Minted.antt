-- ===== src/Store/Minted.antt =====
-- A token that has been persisted is found.
use aizim.Prelude.{
  ℕ, ◌≡◌, ap, ◌∙◌, Bool, false, none, some, List, [], ◌∷◌, ◌++◌, same_text, is_some, if◌then◌else◌,
  arith, eq_refl, Bool-cases, inl, inr,
}
use aizim.Outcome.{Outcome, ok, raised}
use aizim.Events.{EventEnvelope, EventRecord}
use aizim.Projections.{ProjectionRecord}
use aizim.Database.{CapabilityRecord, Database}
use aizim.Tokens.{capability_record, insert_capability}
use aizim.Store.{Reducer, apply_event_mutation, insert_event, save_projections, persist_capability}
use aizim.Tx.Rules.{bind-inv, gets-inv, lift-inv, pure-inv, transaction-inv, rename_failure-inv}

capability_record-append :
    (c : CapabilityRecord) (cs : List CapabilityRecord)
    → is_some (capability_record c.token_hash cs) ≡ false
    → capability_record c.token_hash (cs ++ c ∷ []) ≡ some c
unfolding capability_record
capability_record-append c [] h =
    ap (λ (b : Bool). if b then some c else none) (eq_refl c.token_hash)
capability_record-append c (x ∷ cs) h = elim (Bool-cases (same_text x.token_hash c.token_hash)) [
  | inl e ↦ ground arith
  | inr e ↦ let rest = capability_record-append c cs (ground arith) in ground arith
]

insert_capability-found :
    (c : CapabilityRecord) (u : Unit {0}) (d d' : Database)
    → insert_capability c d ≡ (ok u, d')
    → capability_record c.token_hash d'.capability_tokens ≡ some c
unfolding insert_capability
insert_capability-found c u d d' h =
    elim (Bool-cases (is_some (capability_record c.token_hash d.capability_tokens))) [
      | inl e ↦ ground arith
      | inr e ↦ let found = capability_record-append c d.capability_tokens e in ground arith
    ]

insert_event-tokens :
    (e : EventEnvelope) (n : ℕ) (d d' : Database)
    → insert_event e d ≡ (ok n, d')
    → d'.capability_tokens ≡ d.capability_tokens
unfolding insert_event
insert_event-tokens e n d d' h = ground arith

save_projections-tokens :
    (r : Outcome (List ProjectionRecord)) (u : Unit {0}) (d d' : Database)
    → save_projections r d ≡ (ok u, d')
    → d'.capability_tokens ≡ d.capability_tokens
unfolding save_projections
save_projections-tokens (ok rs) u d d' h = ground arith
save_projections-tokens (raised x) u d d' h = ground arith

module _ (reducer : Reducer) where
  mutation-tokens :
      (e : EventEnvelope) (snapshots : List ProjectionRecord) (x : EventRecord) (d d' : Database)
      → apply_event_mutation reducer e snapshots d ≡ (ok x, d')
      → d'.capability_tokens ≡ d.capability_tokens
  unfolding apply_event_mutation
  mutation-tokens e snapshots x d d' h =
      let (n, d1, inserted, h1) = bind-inv _ _ h in
      let (changes, d2, reduced, h2) = bind-inv _ _ h1 in
      let (current, d3, read, h3) = bind-inv _ _ h2 in
      let (u, d4, saved, h4) = bind-inv _ _ h3 in
      let tokens = λ (s : Database). s.capability_tokens in
      ap tokens (pure-inv _ d4 h4).0
      ∙ save_projections-tokens _ u d3 d4 saved
      ∙ ap tokens (gets-inv _ d2 read).0
      ∙ ap tokens (lift-inv _ d1 reduced).0
      ∙ insert_event-tokens e n d d1 inserted

  -- The record of a token that was persisted is the one that its hash is looked up by.
  pub persist_capability-found :
      (c : CapabilityRecord) (e : EventEnvelope) (x : EventRecord) (d d' : Database)
      → persist_capability reducer c e d ≡ (ok x, d')
      → capability_record c.token_hash d'.capability_tokens ≡ some c
  unfolding persist_capability
  persist_capability-found c e x d d' h =
      let (u, d1, inserted, h1) = bind-inv _ _ (transaction-inv _ (rename_failure-inv _ _ h)) in
      let (snapshots, d2, read, h2) = bind-inv _ _ h1 in
      let same =
        mutation-tokens e snapshots x d2 d' h2
        ∙ ap (λ (s : Database). s.capability_tokens) (gets-inv _ d1 read).0 in
      ap (capability_record c.token_hash) same ∙ insert_capability-found c u d d1 inserted
