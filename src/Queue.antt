-- ===== src/Queue.antt =====
-- The table of the publication queue and its states (state/publications.py, and the statements of
-- state/store_publication.py and its neighbours).
pub mod Laws
pub mod Order
pub mod Steps
mod Tests
use aizim.Prelude.{
  ℕ, ◌+◌, ◌/◌, ◌%◌, Bool, true, false, ◌&&◌, ◌||◌, not, Option, none, some, List, [], ◌∷◌, String,
  same_text, same_text?, is_some, ltb, ◌==◌, if◌then◌else◌,
}
use aizim.Database.{
  QueueState, queued, staged, verified, materialized, published, quarantined, PublicationQueueEntry,
}

-- `can_transition`
unfoldable pub can_transition : QueueState → QueueState → Bool
can_transition staged verified = true
can_transition staged quarantined = true
can_transition verified materialized = true
can_transition verified quarantined = true
can_transition materialized published = true
can_transition materialized quarantined = true
can_transition _ _ = false

-- `state IN (staged, verified, materialized)`
abbrev pub in_progress : QueueState → Bool
in_progress staged = true
in_progress verified = true
in_progress materialized = true
in_progress _ = false

abbrev pub is_queued : QueueState → Bool
is_queued queued = true
is_queued _ = false

abbrev pub is_materialized : QueueState → Bool
is_materialized materialized = true
is_materialized _ = false

abbrev pub is_published : QueueState → Bool
is_published published = true
is_published _ = false

abbrev pub micros : ℕ
micros = 1000000

-- `claimed_at < ?` in the query of `recover_expired_promotion` compares the texts of two times, which
-- is written out here on the times. Up to the second they are of one width; then a
-- whole second goes on with `Z`, which is greater than the `.` before the microseconds of any other.
unfoldable pub text_before : ℕ → ℕ → Bool
text_before a b =
    if a / micros == b / micros
    then not (a % micros == 0) && (b % micros == 0 || ltb (a % micros) (b % micros))
    else ltb (a / micros) (b / micros)

-- `SELECT ... WHERE contribution_id=?`
unfoldable pub find_entry : String → List PublicationQueueEntry → Option PublicationQueueEntry
find_entry k [] = none
find_entry k (e ∷ q) = if same_text e.contribution_id k then some e else find_entry k q

-- The row of a claim: `UPDATE publication_queue SET state=?,state_version=?,claimed_by=?,claimed_at=?`
abbrev pub claimed : ℕ → String → ℕ → QueueState → PublicationQueueEntry → PublicationQueueEntry
claimed version owner at target e = record e {
  state = target;
  state_version = version;
  claimed_by = some owner;
  claimed_at = some at;
}

-- `WHERE contribution_id=? AND state_version=?`
abbrev pub is_row : PublicationQueueEntry → PublicationQueueEntry → Bool
is_row current e =
    same_text e.contribution_id current.contribution_id && e.state_version == current.state_version

unfoldable pub update_rows :
    PublicationQueueEntry
    → (PublicationQueueEntry → PublicationQueueEntry)
    → List PublicationQueueEntry
    → List PublicationQueueEntry
update_rows current f [] = []
update_rows current f (e ∷ q) = (if is_row current e then f e else e) ∷ update_rows current f q

-- `cursor.rowcount`
unfoldable pub row_count : PublicationQueueEntry → List PublicationQueueEntry → ℕ
row_count current [] = 0
row_count current (e ∷ q) = (if is_row current e then 1 else 0) + row_count current q

-- `claimed_by IS NOT NULL AND state IN (staged, verified, materialized)`
abbrev pub is_active : PublicationQueueEntry → Bool
is_active e = is_some e.claimed_by && in_progress e.state

-- `_active`
unfoldable pub any_active : List PublicationQueueEntry → Bool
any_active [] = false
any_active (e ∷ q) = is_active e || any_active q

abbrev pub earlier : PublicationQueueEntry → Option PublicationQueueEntry → PublicationQueueEntry
earlier e none = e
earlier e (some r) = if ltb r.enqueue_sequence e.enqueue_sequence then r else e

-- `SELECT ... WHERE ... ORDER BY enqueue_sequence,contribution_id LIMIT 1`: the sequence is the
-- primary key, so the second column decides nothing.
unfoldable pub first_where :
    (PublicationQueueEntry → Bool) → List PublicationQueueEntry → Option PublicationQueueEntry
first_where p [] = none
first_where p (e ∷ q) = if p e then some (earlier e (first_where p q)) else first_where p q

-- The condition of `recover_expired_promotion`
abbrev pub is_before : ℕ → Option ℕ → Bool
is_before stale none = false
is_before stale (some at) = text_before at stale

unfoldable pub is_stale : ℕ → PublicationQueueEntry → Bool
unfolding text_before
is_stale stale e = is_some e.claimed_by && is_before stale e.claimed_at && in_progress e.state

-- The row of a new contribution.
abbrev pub queued_entry : String → ℕ → PublicationQueueEntry
queued_entry id sequence = record {
  contribution_id = id;
  enqueue_sequence = sequence;
  state = queued;
  state_version = 0;
  claimed_by = none;
  claimed_at = none;
}

abbrev pub is_owner : String → PublicationQueueEntry → Bool
is_owner owner e = same_text? e.claimed_by (some owner)
