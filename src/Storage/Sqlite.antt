-- ===== src/Storage/Sqlite.antt =====
-- src/primal_ai/storage/sqlite.py. SQLite and `json` are parameters: what a statement does to the
-- table of a database, and what a value is encoded to. A thread is a number, and so is a connection.
-- Errors of the database and the making of the directory are left out.
pub mod Refinement
mod Tests
use primal_core.Base.{
  ℕ, ◌+◌, String, Bool, true, false, Option, none, some, List, [], ◌∷◌, ◌++◌, Outcome, returned,
  raised, violation, exception, base_exception, str_eq, ◌==◌, if◌then◌else◌, ◌≡◌,
}
use primal_core.Base.Int.{ℤ}
use primal_core.Base.Value.{Value, null}

-- The statements that the file executes; `keys_like` is `_LIST_KEYS`, and `configure` the PRAGMAs
-- with the making of the table if there is none.
pub record Sqlite : Type 1 where
  pub Db : Type 0
  pub empty : Db
  pub configure : Db → Db
  pub upsert : String → String → ℤ → Db → Db
  pub select : String → Db → Option String
  pub delete : String → Db → Db
  pub keys_like : String → Db → List String

pub record Json : Type 0 where
  pub dumps : Value → Outcome String
  pub loads : String → Outcome Value

-- `_local.conn` of each thread, `_all_connections`, and how many connections were ever opened; the
-- database of the file, and that of each connection to `:memory:`.
pub record SqliteStorage (q : Sqlite) : Type 0 where
  pub path : String
  pub local : List (ℕ × ℕ)
  pub all_connections : List ℕ
  pub opened : ℕ
  pub file : q.Db
  pub memory : ℕ → q.Db

abbrev pub conn_of : ℕ → List (ℕ × ℕ) → Option ℕ
conn_of thread [] = none
conn_of thread ((t, c) ∷ cs) = if t == thread then some c else conn_of thread cs

-- `None` for no row, and the value of the row otherwise
abbrev pub decoded : Json → Option String → Outcome Value
decoded json none = returned null
decoded json (some text) = json.loads text

module _ {q : Sqlite} where
  -- The database behind a connection: every connection to `:memory:` has its own.
  abbrev pub database : ℕ → SqliteStorage q → q.Db
  database c s = if str_eq s.path ":memory:" then s.memory c else s.file

  abbrev pub with_database : ℕ → q.Db → SqliteStorage q → SqliteStorage q
  with_database c d s =
      if str_eq s.path ":memory:"
      then record s { memory = λ j. if j == c then d else s.memory j }
      else record s { file = d }

  -- The second half of `_connection_for_thread`, with `_configure`
  unfoldable pub open_connection : ℕ → SqliteStorage q → ℕ × SqliteStorage q
  open_connection thread s =
      let c = s.opened in
      (
        c,
        with_database c (q.configure (database c s)) (record s {
          local = (thread, c) ∷ s.local;
          all_connections = s.all_connections ++ (c ∷ []);
          opened = c + 1;
        }),
      )

  abbrev pub connection_by : Option ℕ → ℕ → SqliteStorage q → ℕ × SqliteStorage q
  unfolding open_connection
  connection_by (some c) thread s = (c, s)
  connection_by none thread s = open_connection thread s

  -- `_connection_for_thread`
  unfoldable pub connection_for_thread : ℕ → SqliteStorage q → ℕ × SqliteStorage q
  unfolding open_connection
  connection_for_thread thread s = connection_by (conn_of thread s.local) thread s

  -- `with conn: conn.execute(...)`, on the thread's connection
  unfoldable pub execute : ℕ → (q.Db → q.Db) → SqliteStorage q → SqliteStorage q
  unfolding connection_for_thread
  execute thread statement s =
      let (c, s') = connection_for_thread thread s in with_database c (statement (database c s')) s'

  -- `put`, given the encoding; the message of the error is the key.
  abbrev pub put_encoded :
      ℕ → String → ℤ → SqliteStorage q → Outcome String → Outcome (Unit {0}) × SqliteStorage q
  unfolding execute
  put_encoded thread k now s (returned text) = (returned tt, execute thread (q.upsert k text now) s)
  put_encoded thread k now s (raised (exception cls message)) =
      (raised (exception cls (if str_eq cls "TypeError" then k else message)), s)
  put_encoded thread k now s (raised (violation v)) = (raised (violation v), s)
  put_encoded thread k now s (raised (base_exception cls message)) =
      (raised (base_exception cls message), s)

  unfoldable pub put :
      Json → ℕ → String → Value → ℤ → SqliteStorage q → Outcome (Unit {0}) × SqliteStorage q
  unfolding execute
  put json thread k v now s = put_encoded thread k now s (json.dumps v)

  unfoldable pub get : Json → ℕ → String → SqliteStorage q → Outcome Value × SqliteStorage q
  unfolding connection_for_thread
  get json thread k s =
      let (c, s') = connection_for_thread thread s in
      (decoded json (q.select k (database c s')), s')

  unfoldable pub delete : ℕ → String → SqliteStorage q → SqliteStorage q
  unfolding execute
  delete thread k s = execute thread (q.delete k) s

  unfoldable pub list_keys : ℕ → String → SqliteStorage q → List String × SqliteStorage q
  unfolding connection_for_thread
  list_keys thread prefix s =
      let (c, s') = connection_for_thread thread s in (q.keys_like prefix (database c s'), s')

  unfoldable pub close : SqliteStorage q → SqliteStorage q
  close s = record s { local = []; all_connections = [] }

  -- `SQLiteStorage(path)`, in the given thread, on a file that holds the given database
  unfoldable pub init : String → ℕ → q.Db → SqliteStorage q
  unfolding connection_for_thread
  init path thread file =
      (connection_for_thread thread (record {
        path = path;
        local = [];
        all_connections = [];
        opened = 0;
        file = file;
        memory = λ c. q.empty;
      })).1
