-- ===== src/Store/Replay.antt =====
-- `replay_verify` of state/store.py: the log of events determines the projections.
pub mod Mirror
use aizim.Prelude.{◌≡◌, refl, sym, ap, ◌∙◌, List, [], ◌∷◌, ◌++◌, arith, false, Bool, String, ℕ}
use mathlib.Core.Path.{subst}
use mathlib.Core.List.{append-nil, append_assoc}
use aizim.Outcome.{Outcome, ok}
use aizim.Tx.{Tx, gets, ◌>>=◌, ◌>>◌}
use aizim.Tx.Rules.{bind-inv, bind-ok, Moves}
use aizim.Events.{EventEnvelope, EventRecord}
use aizim.Projections.{ProjectionRecord}
use aizim.Database.{Database, CapabilityRecord, initial}
use aizim.Tokens.{ends_lease, revoke_capability}
use aizim.Artifacts.{is_artifact_registered}
use aizim.Store.{Reducer, append, append_within, persist_capability, replay, replayed_projections}
use Mirror.{logged, append-logged, append-Logs, append_within-append, persist_capability-append}

module _ (reducer : Reducer) where
  replay-append :
      (xs ys : List EventRecord) (d t u : Database)
      → replay reducer xs d ≡ (ok tt, t)
      → replay reducer ys t ≡ (ok tt, u)
      → replay reducer (xs ++ ys) d ≡ (ok tt, u)
  unfolding replay
  replay-append [] ys d t u p q =
      subst (λ s. replay reducer ys s ≡ (ok tt, u))
        (sym (ap (λ (r : Outcome (Unit {0}) × Database). r.1) p)) q
  replay-append (x ∷ xs) ys d t u p q =
      let (y, s, first, rest) = bind-inv _ _ p in
      bind-ok _ _ first ∙ replay-append xs ys s t u rest q

  -- The log has grown by events whose replay makes the same change to the logged tables.
  pub record Extends (d d' : Database) : Type 0 where
    pub added : List EventRecord
    pub log : d'.events ≡ d.events ++ added
    pub replayed : replay reducer added (logged d) ≡ (ok tt, logged d')

  pub Extends-refl : (d : Database) → Extends d d
  unfolding replay
  Extends-refl d = record { added = []; log = sym (append-nil _); replayed = refl }

  pub Extends-trans : (d t u : Database) → Extends d t → Extends t u → Extends d u
  Extends-trans d t u p q = record {
    added = p.added ++ q.added;
    log = q.log ∙ ap (λ l. l ++ q.added) p.log ∙ append_assoc d.events p.added q.added;
    replayed = replay-append p.added q.added _ _ _ p.replayed q.replayed;
  }

  -- A step that changes none of the logged tables.
  pub Extends-of_logged : (d d' : Database) → logged d' ≡ logged d → Extends d d'
  unfolding replay
  Extends-of_logged d d' e = record {
    added = [];
    log = ap (λ (t : Database). t.events) e ∙ sym (append-nil _);
    replayed = ap (λ t. (ok tt, t)) (sym e);
  }

  pub append-Extends :
      (e : EventEnvelope) (d d' : Database) (x : EventRecord)
      → append reducer e d ≡ (ok x, d')
      → Extends d d'
  unfolding replay
  append-Extends e d d' x h =
      let (grown, made) = append-Logs reducer e d d' x h in
      record {
        added = x ∷ [];
        log = grown;
        replayed =
            subst
              (λ (v : EventEnvelope).
                (append reducer v >> replay reducer []) (logged d) ≡ (ok tt, logged d'))
              (sym made) (bind-ok _ _ (append-logged reducer e d d' x h));
      }

  -- An append that an open transaction makes, of an event that registers no artifact.
  pub append_within-Extends :
      (e : EventEnvelope)
      → is_artifact_registered e.event_type ≡ false
      → Moves Extends (append_within reducer e)
  append_within-Extends e plain = record {
    at = λ d d' x h. append-Extends e d d' x (append_within-append reducer e d d' x plain h);
  }

  pub persist_capability-Extends :
      (c : CapabilityRecord) (e : EventEnvelope) (d d' : Database) (x : EventRecord)
      → is_artifact_registered e.event_type ≡ false
      → ends_lease e.event_type ≡ false
      → persist_capability reducer c e d ≡ (ok x, d')
      → Extends d d'
  persist_capability-Extends c e d d' x plain lasting h =
      let (t, appended, same, events) =
        persist_capability-append reducer c e d d' x plain lasting h in
      Extends-trans d t d' (Extends-of_logged d t same) (append-Extends e t d' x appended)

  pub revoke_capability-Extends :
      (k : String) (now : ℕ) (d d' : Database) (b : Bool)
      → revoke_capability k now d ≡ (ok b, d')
      → Extends d d'
  unfolding revoke_capability
  revoke_capability-Extends k now d d' b h = Extends-of_logged d d' (ground arith)

  -- A database that has grown from an empty one has the projections that its log replays to.
  pub replayed_projections_faithful :
      (d : Database) → Extends initial d → replayed_projections reducer d ≡ ok d.projections
  unfolding replayed_projections gets
  replayed_projections_faithful d h =
      subst
        (λ l.
          ((replay reducer l >> gets (λ (r : Database). r.projections)) initial).0
          ≡ ok d.projections)
        (sym h.log)
        (ap (λ (r : Outcome (List ProjectionRecord) × Database). r.0) (bind-ok _ _ h.replayed))
