-- ===== src/Postgres/Opening.antt =====
-- Open and Migrate of internal/storage/postgres/store.go. The driver behind database/sql is a
-- parameter; `D` is the state of the connection and of the database.
use agent_secyrity.Prelude.{String}
use agent_secyrity.Domain.Errors.{Result, ok, err, Context}

-- sql.Open("pgx", dsn), db.PingContext, db.Close, and db.ExecContext of the embedded migration
pub record Driver (D : Type 0) : Type 0 where
  pub open_handle : String → D → D × Result (Unit {0})
  pub ping : Context → D → D × Result (Unit {0})
  pub close : D → D × Result (Unit {0})
  pub run_migration : Context → D → D × Result (Unit {0})

module _ {D : Type 0} (driver : Driver D) where
  -- the handle is closed again where what was tried on it fails
  abbrev pub closing_on_failure : D × Result (Unit {0}) → D × Result (Unit {0})
  closing_on_failure (d, err e) = ((driver.close d).0, err e)
  closing_on_failure (d, ok u) = (d, ok u)

  abbrev pinged : Context → D × Result (Unit {0}) → D × Result (Unit {0})
  pinged ctx (d, err e) = (d, err e)
  pinged ctx (d, ok u) = closing_on_failure (driver.ping ctx d)

  -- Open
  unfoldable pub open_database : Context → String → D → D × Result (Unit {0})
  open_database ctx dsn d = pinged ctx (driver.open_handle dsn d)

  -- Migrate
  abbrev pub migrate : Context → D → D × Result (Unit {0})
  migrate ctx d = driver.run_migration ctx d
