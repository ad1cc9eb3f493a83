-- ===== src/Launcher/Tests.antt =====
-- A flow whose completion is stored before its last progress.
use cloudvelo.Prelude.{List, [], ◌∷◌, Result, ok, err}
use cloudvelo.Ingestion.Types.{progress, succeeded, CollectorContext}
use cloudvelo.Ingestion.Hunts.{stats_record}
use cloudvelo.Ingestion.TestEnv.{env}
use cloudvelo.Launcher.{StoredRecord}
use cloudvelo.Launcher.Completion.{stored_as}

abbrev context : CollectorContext
context = record {
  client_id = "C.1";
  session_id = "F.1";
  total_uploaded_files = 0;
  total_expected_uploaded_bytes = 0;
  total_uploaded_bytes = 0;
  total_collected_rows = 10;
  total_logs = 2;
  active_time = 9;
  query_stats = succeeded ∷ succeeded ∷ [];
}

abbrev earlier : CollectorContext
earlier = record context {
  total_collected_rows = 4;
  active_time = 5;
  query_stats = succeeded ∷ progress ∷ [];
}

abbrev hits : List (Result StoredRecord)
hits =
    err "no JSON"
    ∷ ok (stored_as (stats_record env context))
    ∷ ok (stored_as (stats_record env earlier))
    ∷ []
