-- ===== src/Application/Opening.antt =====
-- apps/pulseport-service/main.cpp: the beginning of run_application, up to the objects that use the database.
use pulseport.Storage.Database.{Database, SqliteLibrary, open_database}
use pulseport.Server.Status.{SelfMetrics}
use pulseport.Config.{Config}
use pulseport.Prelude.{Bool, List, String, none, ℕ}
use pulseport.Prelude.Int.{ℤ}

module _ {ℓ} {D F Db : Type ℓ} (lib : SqliteLibrary F Db)
    (migrations_in : String → List (ℕ × String × List ℕ)) where
  -- The new metrics of the process and the database, with whether run_application goes on.
  unfoldable pub open_application :
      (version : String) (now : ℤ) → Config D → F → SelfMetrics → Bool × Database F Db × SelfMetrics
  unfolding open_database
  open_application version now cfg disk sm =
      let started = record sm { version = version; start_time_unix = now } in
      let closed : Database F Db = record { db = none; db_path = ""; disk = disk } in
      let opened = open_database lib cfg.db_path (migrations_in cfg.migrations_dir) closed in
      (opened.0, opened.1, started)
