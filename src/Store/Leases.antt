-- ===== src/Store/Leases.antt =====
-- The end of a lease revokes its tokens.
use mathlib.Core.List.{Memᴰ}
use mathlib.Core.Path.{subst}
use aizim.Prelude.{
  ℕ, ◌≡◌, refl, sym, ap, ◌∙◌, Bool, true, false, some, List, [], ◌∷◌, String, same_text, same_text?,
  is_some, arith, eq_refl, ◌&&◌,
}
use aizim.Outcome.{ok}
use aizim.Tx.Rules.{bind-inv, pure-inv, transaction-inv, rename_failure-inv}
use aizim.Json.{get_text}
use aizim.Events.{EventEnvelope, EventRecord}
use aizim.Database.{CapabilityRecord, Database}
use aizim.Tokens.{ends_lease, revoke_lease, revoke_lease_capabilities, revoked_now}
use aizim.Store.{Reducer, append}

abbrev holds : String → String → CapabilityRecord → Bool
holds run lease x = same_text x.run_id run && same_text? x.lease_id (some lease)

held :
    (run lease : String) (x : CapabilityRecord)
    → x.run_id ≡ run
    → x.lease_id ≡ some lease
    → holds run lease x ≡ true
held run lease x r l =
    let name = subst (λ t. same_text t run ≡ true) (sym r) (eq_refl run) in
    let leased = subst (λ t. same_text? t (some lease) ≡ true) (sym l) (eq_refl lease) in
    ground arith

revoked_now-true :
    (b : Bool) (now : ℕ) (x : CapabilityRecord)
    → b ≡ true
    → is_some (revoked_now b now x).revoked_at ≡ true
revoked_now-true true now x h = ground arith
revoked_now-true false now x h = ground arith

revoked_now-keeps :
    (b : Bool) (now : ℕ) (x : CapabilityRecord)
    → ((revoked_now b now x).run_id ≡ x.run_id) × ((revoked_now b now x).lease_id ≡ x.lease_id)
revoked_now-keeps true now x = (ground arith, ground arith)
revoked_now-keeps false now x = (refl, refl)

revoke_lease-revokes :
    (run lease : String) (now : ℕ) (cs : List CapabilityRecord) (c : CapabilityRecord)
    → Memᴰ c (revoke_lease run lease now cs)
    → c.run_id ≡ run
    → c.lease_id ≡ some lease
    → is_some c.revoked_at ≡ true
unfolding revoke_lease
revoke_lease-revokes run lease now [] c m r l = elim m [ ]
revoke_lease-revokes run lease now (x ∷ cs) c (Memᴰ.head e) r l =
    let (same_run, same_lease) = revoked_now-keeps (holds run lease x) now x in
    let r' = sym same_run ∙ sym (ap (λ (y : CapabilityRecord). y.run_id) e) ∙ r in
    let l' = sym same_lease ∙ sym (ap (λ (y : CapabilityRecord). y.lease_id) e) ∙ l in
    subst (λ (y : CapabilityRecord). is_some y.revoked_at ≡ true) (sym e)
      (revoked_now-true (holds run lease x) now x (held run lease x r' l'))
revoke_lease-revokes run lease now (x ∷ cs) c (Memᴰ.tail m) r l =
    revoke_lease-revokes run lease now cs c m r l

revoke_lease_capabilities-tokens :
    (e : EventEnvelope) (run lease : String) (d d' : Database)
    → ends_lease e.event_type ≡ true
    → e.run_id ≡ some run
    → get_text "lease_id" e.payload ≡ some lease
    → revoke_lease_capabilities e d ≡ (ok tt, d')
    → d'.capability_tokens ≡ revoke_lease run lease e.occurred_at d.capability_tokens
unfolding revoke_lease_capabilities
revoke_lease_capabilities-tokens e run lease d d' t r l h = ground arith

module _ (reducer : Reducer) where
  -- After the event that ends a lease has been appended, no token of that lease and that run is left
  -- unrevoked.
  pub append-revokes :
      (e : EventEnvelope) (x : EventRecord) (d d' : Database) (run lease : String)
      (c : CapabilityRecord)
      → append reducer e d ≡ (ok x, d')
      → ends_lease e.event_type ≡ true
      → e.run_id ≡ some run
      → get_text "lease_id" e.payload ≡ some lease
      → Memᴰ c d'.capability_tokens
      → c.run_id ≡ run
      → c.lease_id ≡ some lease
      → is_some c.revoked_at ≡ true
  unfolding append
  append-revokes e x d d' run lease c h t r l m cr cl =
      let (snapshots, d1, read, h1) = bind-inv _ _ (transaction-inv _ (rename_failure-inv _ _ h)) in
      let (appended, d2, added, h2) = bind-inv _ _ h1 in
      let (u, d3, registered, h3) = bind-inv _ _ h2 in
      let (v, d4, revoked, h4) = bind-inv _ _ h3 in
      let (same, made) = pure-inv _ d4 h4 in
      let tokens =
        ap (λ (s : Database). s.capability_tokens) same
        ∙ revoke_lease_capabilities-tokens e run lease d3 d4 t r l revoked in
      revoke_lease-revokes run lease e.occurred_at d3.capability_tokens c
        (subst (λ cs. Memᴰ c cs) tokens m) cr cl
