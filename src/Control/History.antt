-- ===== src/Control/History.antt =====
-- Histories of calls of the command store, by any workers with any leases in hand, stale ones included.
use lineage_collection.Prelude.{ℕ, String, Bool, List, [], ◌∷◌}
use lineage_collection.Models.{Command, Lease, StageIdentity, StageResult}
use lineage_collection.Database.{Database}
use lineage_collection.Control
use lineage_collection.Control.Stages.{complete, record_stage}

pub data Call : Type 0 where
  submits : Command → ℕ → Call
  claims : String → String → ℕ → ℕ → Call
  renews : Lease → ℕ → ℕ → Call
  completes : Lease → StageResult → ℕ → Call
  fails : Lease → String → Bool → ℕ → Call
  records : Lease → StageResult → ℕ → Call

module _ (idempotency_key : StageIdentity → String) where
  unfoldable pub step : Database → Call → Database
  step db (submits c now) = (Control.submit c now db).1
  step db (claims id owner lease_seconds now) = (Control.claim id owner lease_seconds now db).1
  step db (renews lease lease_seconds now) = (Control.renew lease lease_seconds now db).1
  step db (completes lease r now) = (complete idempotency_key lease r now db).1
  step db (fails lease code retryable now) = (Control.fail lease code retryable now db).1
  step db (records lease r now) = (record_stage idempotency_key lease r now db).1

  unfoldable pub run : Database → List Call → Database
  run db [] = db
  run db (c ∷ cs) = run (step db c) cs
