-- ===== src/Startup.antt =====
-- How the programs start: internal/store/store.go, internal/store/migrations.go, cmd/controller/main.go and
-- cmd/api/main.go, from the configuration to the call that serves.
pub mod Controller
pub mod Api
pub mod Webhook
pub mod Prepared
pub mod Installed
pub mod Crashed
use k8s_mtp.Common.{ℕ, String, ◌==◌, ◌<>◌, if◌then◌else◌}
use k8s_mtp.Common.Int.{ℤ}
use k8s_mtp.Settings.{Config}
use k8s_mtp.Settings.Load.{System, Loaded, loaded, load_error, panicked, load}

-- A value, or the text of an error.
pub data Result (A : Type 0) : Type 0 where
  ok : A → Result A
  err : String → Result A

-- What `Up` brings: the migrations were run, there was none to run, or an error.
pub data Migrated : Type 0 where
  up_to_date : Migrated
  no_change : Migrated
  migrate_error : String → Migrated

-- database/sql, the PostgreSQL driver and golang-migrate, as a parameter. `World` is all that is outside of
-- the process, and `embedded` is what `iofs.New` makes of the migrations in the binary.
pub record Sql (World : Type 0) : Type 1 where
  pub Db : Type 0
  pub Driver : Type 0
  pub Source : Type 0
  pub Migrator : Type 0
  pub open_db : String → World → Result Db × World
  pub set_max_open_conns : Db → ℤ → World → World
  pub set_max_idle_conns : Db → ℤ → World → World
  pub parse_duration : String → Result ℤ
  pub set_conn_max_lifetime : Db → ℤ → World → World
  pub ping : Db → World → Result (Unit {0}) × World
  pub close : Db → World → World
  pub with_instance : Db → World → Result Driver × World
  pub embedded : Result Source
  pub new_with_instance : Source → Driver → World → Result Migrator × World
  pub new_with_database_instance : String → Driver → World → Result Migrator × World
  pub up : Migrator → World → Migrated × World

-- How a program ends: it leaves with a status, it panics, or its `main` returns.
pub data Ending : Type 0 where
  exited : ℕ → Ending
  crashed : Ending
  returned : Ending

module _ {World : Type 0} (sql : Sql World) where
  open sql use {Db, Driver, Migrator}

  -- The pings at the end of `New`.
  unfoldable pub pinged : Db → World → Result Db × World
  pinged db w =
      let (answer, w') = sql.ping db w in
      elim answer [ err e ↦ (err ("cannot ping database: " <> e), w') | ok u ↦ (ok db, w') ]

  unfoldable pub with_lifetime : Config → Db → World → Result Db × World
  unfolding pinged
  with_lifetime cfg db w =
      if cfg.db_conn_max_lifetime == ""
      then pinged db w
      else elim (sql.parse_duration cfg.db_conn_max_lifetime) [
        | err e ↦ (err ("invalid DB connection max lifetime: " <> e), w)
        | ok duration ↦ pinged db (sql.set_conn_max_lifetime db duration w)
      ]

  -- `New` of the store.
  unfoldable pub new_store : Config → World → Result Db × World
  unfolding with_lifetime
  new_store cfg w =
      let (answer, w') = sql.open_db cfg.db_url w in
      elim answer [
        | err e ↦ (err ("error opening database: " <> e), w')
        | ok db ↦ with_lifetime cfg db (
            sql.set_max_idle_conns db cfg.db_max_idle_conns
              (sql.set_max_open_conns db cfg.db_max_open_conns w'))
      ]

  -- `m.Up()` behind the making of the migrator.
  abbrev pub run_up : String → Result Migrator × World → Migrated × World
  run_up text (err e, w) = (migrate_error (text <> e), w)
  run_up text (ok m, w) = sql.up m w

  unfoldable pub run_migrations : String → Db → World → Migrated × World
  run_migrations path db w =
      let (answer, w') = sql.with_instance db w in
      elim answer [
        | err e ↦ (migrate_error e, w')
        | ok driver ↦ run_up "" (sql.new_with_database_instance path driver w')
      ]

  unfoldable pub run_migrations_embedded : Db → World → Migrated × World
  run_migrations_embedded db w =
      let (answer, w') = sql.with_instance db w in
      elim answer [
        | err e ↦ (migrate_error ("failed to create postgres driver: " <> e), w')
        | ok driver ↦ elim sql.embedded [
          | err e ↦ (migrate_error ("failed to create migrator " <> e), w')
          | ok source ↦
              run_up "failed to create migrator: " (sql.new_with_instance source driver w')
        ]
      ]

  -- `defer db.Close()`: it runs when `main` returns and when it panics, and not when the process exits.
  unfoldable pub closing : Db → Ending × World → Ending × World
  closing db (exited n, w) = (exited n, w)
  closing db (crashed, w) = (crashed, sql.close db w)
  closing db (returned, w) = (returned, sql.close db w)

  -- What both programs do with the outcome of the migrations.
  unfoldable pub migrated : Db → (World → Ending × World) → Migrated × World → Ending × World
  unfolding closing
  migrated db rest (migrate_error e, w) = (exited 1, w)
  migrated db rest (no_change, w) = closing db (rest w)
  migrated db rest (up_to_date, w) = closing db (rest w)

  unfoldable pub connected : (Db → World → Ending × World) → Result Db × World → Ending × World
  unfolding migrated run_migrations_embedded
  connected rest (err e, w) = (exited 1, w)
  connected rest (ok db, w) = migrated db (rest db) (run_migrations_embedded db w)

  -- The start that both programs share: the configuration, the database and the migrations.
  unfoldable pub prepared : (Config → Db → World → Ending × World) → Loaded → World → Ending × World
  unfolding connected new_store
  prepared rest load_error w = (exited 1, w)
  prepared rest panicked w = (crashed, w)
  prepared rest (loaded cfg) w = connected (rest cfg) (new_store cfg w)
