-- ===== src/Examples/Tables.antt =====
-- Concrete tables.
use zenmind_official_server.Base.{ℕ, true, none, [], ◌∷◌}
use zenmind_official_server.Text.{text, text_eq}
use zenmind_official_server.Text.Laws.{text_eq_refl, text_eq_sym, text_eq_trans}
use zenmind_official_server.Auth.Store.Defs.{Db, UserRow, Collation}
use zenmind_official_server.Auth.Store.Monad.{World}
use zenmind_official_server.Auth.Store.History.{Op, Event}

-- A binary collation.
abbrev pub binary : Collation
binary = record {
  same = text_eq;
  same_refl = text_eq_refl;
  same_sym = text_eq_sym;
  same_trans = text_eq_trans;
}

abbrev pub no_rows : Db
no_rows = record {
  users = [];
  credentials = [];
  identities = [];
  sessions = [];
  oauth_requests = [];
  tickets = [];
  login_logs = [];
  email_codes = [];
  next_user_id = 1;
  next_code_id = 1;
}

abbrev pub ann : UserRow
ann = record {
  id = 1;
  email = text "ann@example.com";
  display_name = text "Ann";
  avatar_url = [];
  auth_provider = text "google";
  auth_sub = text "g-1";
  role = text "user";
  enabled = true;
  created_at = 10;
  updated_at = 10;
  last_login_at = none;
}

abbrev pub one_user : Db
one_user = record no_rows { users = ann ∷ []; next_user_id = 2 }

-- No call of the driver fails.
abbrev pub quiet : Db → ℕ → World
quiet db now = record { db = db; faults = []; clock = now }

abbrev pub call : Op → ℕ → Event
call op now = record { op = op; faults = []; clock = now }
