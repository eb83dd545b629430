-- ===== src/Server/Stopping.antt =====
-- main of cmd/server/main.go once the server listens: how it ends, and with which exit status. What
-- ListenAndServe, Shutdown and Close do is a parameter.
use agent_secyrity.Prelude.{ℕ, Bool, Option, none, some, if◌then◌else◌}
use agent_secyrity.Domain.Errors.{Error, Result, ok, err}

-- The goroutine that listens exits the process unless the server was closed, as `is_closed`,
-- errors.Is(err, http.ErrServerClosed), tells.
unfoldable pub listening_status : (Error → Bool) → Option Error → Option ℕ
listening_status is_closed none = none
listening_status is_closed (some e) = if is_closed e then none else some 1

module _ {S : Type 0} (close : S → S × Result (Unit {0})) where
  -- os.Exit leaves the deferred stores.Close out.
  abbrev stopped : S × Result (Unit {0}) → S × ℕ
  stopped (s, err e) = (s, 1)
  stopped (s, ok u) = ((close s).0, 0)

  -- from the signal on
  unfoldable pub stop : (S → S × Result (Unit {0})) → S → S × ℕ
  stop shutdown s = stopped (shutdown s)
