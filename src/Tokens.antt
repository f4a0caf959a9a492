-- ===== src/Tokens.antt =====
-- The table of capability tokens (state/store_mutations.py).
use aizim.Prelude.{
  ℕ, Bool, true, false, ◌&&◌, ◌||◌, not, Option, none, some, List, [], ◌∷◌, ◌++◌, String, same_text,
  same_text?, is_some, if◌then◌else◌,
}
use aizim.Outcome.{ok, raised, integrity_error, projection_authority_error}
use aizim.Tx.{Tx}
use aizim.Json.{get_text}
use aizim.Events.{EventType, EventEnvelope, lease_released, lease_recovered}
use aizim.Database.{Database, CapabilityRecord}

-- `SELECT ... FROM capability_tokens WHERE token_hash=?`
unfoldable pub capability_record : String → List CapabilityRecord → Option CapabilityRecord
capability_record k [] = none
capability_record k (c ∷ cs) = if same_text c.token_hash k then some c else capability_record k cs

-- `INSERT INTO capability_tokens`, with the primary key on the hash
unfoldable pub insert_capability : CapabilityRecord → Tx Database (Unit {0})
unfolding capability_record
insert_capability c d =
    if is_some (capability_record c.token_hash d.capability_tokens)
    then (raised (integrity_error "capability_tokens.token_hash"), d)
    else (ok tt, record d { capability_tokens = d.capability_tokens ++ c ∷ [] })

-- `UPDATE capability_tokens SET revoked_at=? WHERE token_hash=? AND revoked_at IS NULL`, and
-- whether a row was changed
abbrev pub revoked_now : Bool → ℕ → CapabilityRecord → CapabilityRecord
revoked_now true now c = if is_some c.revoked_at then c else record c { revoked_at = some now }
revoked_now false now c = c

unfoldable pub revoke_token : String → ℕ → List CapabilityRecord → List CapabilityRecord
revoke_token k now [] = []
revoke_token k now (c ∷ cs) = revoked_now (same_text c.token_hash k) now c ∷ revoke_token k now cs

unfoldable pub can_revoke : String → List CapabilityRecord → Bool
can_revoke k [] = false
can_revoke k (c ∷ cs) = same_text c.token_hash k && not (is_some c.revoked_at) || can_revoke k cs

-- `revoke_capability` of the store
unfoldable pub revoke_capability : String → ℕ → Tx Database Bool
revoke_capability k now d = (
  ok (can_revoke k d.capability_tokens),
  record d { capability_tokens = revoke_token k now d.capability_tokens },
)

-- The tokens of one lease of one run.
unfoldable pub revoke_lease : String → String → ℕ → List CapabilityRecord → List CapabilityRecord
revoke_lease run lease now [] = []
revoke_lease run lease now (c ∷ cs) =
    revoked_now (same_text c.run_id run && same_text? c.lease_id (some lease)) now c
    ∷ revoke_lease run lease now cs

abbrev pub ends_lease : EventType → Bool
ends_lease lease_released = true
ends_lease lease_recovered = true
ends_lease _ = false

revoke_held : Option String → Option String → ℕ → Tx Database (Unit {0})
revoke_held none lease now d =
    (raised (projection_authority_error "run_id" "lease terminal event requires a run"), d)
revoke_held (some run) none now d =
    (raised (projection_authority_error "lease_id" "lease terminal event requires a lease"), d)
revoke_held (some run) (some lease) now d =
    (ok tt, record d { capability_tokens = revoke_lease run lease now d.capability_tokens })

-- `revoke_lease_capabilities`
unfoldable pub revoke_lease_capabilities : EventEnvelope → Tx Database (Unit {0})
unfolding revoke_held
revoke_lease_capabilities event d =
    if ends_lease event.event_type
    then revoke_held event.run_id (get_text "lease_id" event.payload) event.occurred_at d
    else (ok tt, d)
