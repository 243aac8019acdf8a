-- ===== src/System/Accounts.antt =====
-- The writes to the customers' identities, by the server and by the bot, in any order.
use tam_backend.Prelude.{ℤ, lookup, Text, ℕ, ◌≡◌, Bool, Option, none, List, [], ◌∷◌}
use tam_backend.Storage.Schema.{Db}
use tam_backend.Storage.Profiles.Distinct.{IsUnique}
use tam_backend.Server.Outcome.{Answers}
use tam_backend.Server.Auth.{AuthEnv, on_auth, UpdateMeRequest, update_me}
use tam_backend.Storage.Profiles.Keeping.{ProfileKept, IsUnique-Kept}
use tam_backend.Server.Auth.Keeping.{on_auth-keeps, update_me-keeps}
use tam_backend.Bot.Start.{on_start, on_start-keeps}

-- A login, a command /start and an update of a profile, with what the database answers, and the key
-- and the wallet id that it generates for a new row.
pub data AccountStep : Type 0 where
  login : Answers → ℕ → ℤ → Option Text → AccountStep
  start : Answers → ℕ → ℤ → ℕ → AccountStep
  profile : Bool → ℕ → Option UpdateMeRequest → AccountStep

abbrev pub account_step : AuthEnv → AccountStep → Db → Db
account_step env (login up id hd body) db = (on_auth env up id hd body db).0.db
account_step env (start up id hd user) db = on_start env.get_address up id hd user db
account_step env (profile up k body) db = (update_me up k body db).db

abbrev pub account_run : AuthEnv → List AccountStep → Db → Db
account_run env [] db = db
account_run env (s ∷ ss) db = account_run env ss (account_step env s db)

-- The key generated for a new row is new.
abbrev pub IsFresh : AccountStep → Db → Type 0
IsFresh (login up id hd body) db = lookup id db.customers ≡ none
IsFresh (start up id hd user) db = lookup id db.customers ≡ none
IsFresh (profile up k body) db = Unit

abbrev pub AllFresh : AuthEnv → List AccountStep → Db → Type 0
AllFresh env [] db = Unit
AllFresh env (s ∷ ss) db = IsFresh s db × AllFresh env ss (account_step env s db)

pub account_step-keeps :
    (P : Db → Type 0) (kept : ProfileKept P) (env : AuthEnv) (s : AccountStep) (db : Db)
    → IsFresh s db
    → P db
    → P (account_step env s db)
account_step-keeps P kept env (login up id hd body) db fresh h =
    on_auth-keeps P kept env up id hd body db fresh h
account_step-keeps P kept env (start up id hd user) db fresh h =
    on_start-keeps P kept env.get_address up id hd user db fresh h
account_step-keeps P kept env (profile up k body) db fresh h = update_me-keeps P kept up k body db h

-- Whatever logins, commands /start and updates of profiles run, in any order and with any failures
-- of the database and of the wallet, the keys, the Telegram ids and the addresses of the customers
-- stay unique, if the keys generated for new rows are new.
pub account_run-IsUnique :
    (env : AuthEnv) (ss : List AccountStep) (db : Db)
    → AllFresh env ss db
    → IsUnique db.customers
    → IsUnique (account_run env ss db).customers
account_run-IsUnique env [] db fresh u = u
account_run-IsUnique env (s ∷ ss) db fresh u =
    account_run-IsUnique env ss (account_step env s db) fresh.1
      (account_step-keeps (λ x. IsUnique x.customers) IsUnique-Kept env s db fresh.0 u)
