-- ===== src/Foreman/Outcome.antt =====
-- What a run of the foreman does: its effects in order, and whether it ended with an error.
pub use cloudvelo.Prelude.Runs.{done, failed, after, ◌>>=◌, ◌>>◌, emit, effects}
use cloudvelo.Prelude.Runs.{Run}
use cloudvelo.Prelude.{ℕ, String, List}
use cloudvelo.Foreman.Types.{Request, Message}

pub data Effect : Type 0 where
  -- ScheduleVQLCollectorArgsOnMultipleClients
  schedule_many : Request → List String → Effect
  -- WriteArtifactCollectionRecord
  write_collection : Request → Effect
  -- QueueMessageForClient, QueueMessageForMultipleClients
  queue_message : String → Message → Effect
  queue_many : List String → Message → Effect
  -- the record of a client and a hunt, and of a client's event table version
  write_assigned : String → String → Effect
  write_event_version : String → ℕ → Effect
  -- the update of a hunt's state
  stop_hunt : String → Effect
  -- FlushBulkIndexer
  flush : Effect

abbrev pub Outcome {ℓ} : Type ℓ → Type ℓ
Outcome A = Run Effect A
