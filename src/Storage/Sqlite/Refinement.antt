-- ===== src/Storage/Sqlite/Refinement.antt =====
-- What src/primal_ai/storage/sqlite.py keeps of the contract of a store, from any threads.
use primal_core.Base.{
  ℕ, String, true, false, Option, none, some, Outcome, returned, raised, violation, exception,
  base_exception, Bool-cases, inl, inr, str_eq, ◌==◌, if◌then◌else◌, ◌≡◌, refl, ap, ◌∙◌, sym,
}
use primal_core.Base.Int.{ℤ}
use primal_core.Base.Value.{Value, null}
use primal_core.Storage.Sqlite.{
  Sqlite, Json, SqliteStorage, conn_of, open_connection, connection_by, connection_for_thread,
  execute, put_encoded, put, decoded, get, delete,
}

-- The statements on the table: what is written under a key is read, and other keys keep theirs.
pub record IsSqlite (q : Sqlite) : Type 0 where
  pub select-upsert :
      (k j text : String) (now : ℤ) (d : q.Db)
      → q.select j (q.upsert k text now d) ≡ (if str_eq k j then some text else q.select j d)
  pub select-delete :
      (k j : String) (d : q.Db)
      → q.select j (q.delete k d) ≡ (if str_eq k j then none else q.select j d)
  pub select-configure : (j : String) (d : q.Db) → q.select j (q.configure d) ≡ q.select j d

-- A value that `json` gives back as it was, with its encoding
abbrev pub Encodes : Json → Value → String → Type 0
Encodes json v text = (json.dumps v ≡ returned text) × (json.loads text ≡ returned v)

-- The store is on a file.
abbrev pub OnFile : {q : Sqlite} → SqliteStorage q → Type 0
OnFile s = str_eq s.path ":memory:" ≡ false

module _ {q : Sqlite} (lawful : IsSqlite q) where
  -- Getting a connection leaves the path and the rows of the file.
  connection_by-file :
      (o : Option ℕ) (thread : ℕ) (s : SqliteStorage q)
      → OnFile s
      → let s' = (connection_by o thread s).1 in
        OnFile s' × ((j : String) → q.select j s'.file ≡ q.select j s.file)
  unfolding open_connection
  connection_by-file (some c) thread s h = (h, λ j. refl)
  connection_by-file none thread s h = rw h (h, λ j. lawful.select-configure j s.file)

  connection-file :
      (thread : ℕ) (s : SqliteStorage q)
      → OnFile s
      → let s' = (connection_for_thread thread s).1 in
        OnFile s' × ((j : String) → q.select j s'.file ≡ q.select j s.file)
  unfolding connection_for_thread
  connection-file thread s = connection_by-file (conn_of thread s.local) thread s

  -- What a thread reads
  get-file :
      (json : Json) (thread : ℕ) (k : String) (s : SqliteStorage q)
      → OnFile s
      → (get json thread k s).0 ≡ decoded json (q.select k s.file)
  unfolding get
  get-file json thread k s h =
      let (h', rows) = connection-file thread s h in rw h' (ap (decoded json) (rows k))

  -- What a statement leaves
  execute-file :
      (thread : ℕ) (statement : q.Db → q.Db) (s : SqliteStorage q)
      → OnFile s
      → let s' = execute thread statement s in
        OnFile s' × (s'.file ≡ statement (connection_for_thread thread s).1.file)
  unfolding execute
  execute-file thread statement s h =
      let (h', rows) = connection-file thread s h in rw h' (h', refl)

  -- What a reader finds after a statement, by what the statement does to the rows
  get-execute :
      (json : Json) (writer reader : ℕ) (j : String) (statement : q.Db → q.Db)
      (row : Option String → Option String) (s : SqliteStorage q)
      → OnFile s
      → ((d : q.Db) → q.select j (statement d) ≡ row (q.select j d))
      → (get json reader j (execute writer statement s)).0 ≡ decoded json (row (q.select j s.file))
  get-execute json writer reader j statement row s h acts =
      let s' = execute writer statement s in
      let (h', file) = execute-file writer statement s h in
      let (_, rows) = connection-file writer s h in
      get-file json reader j s' h'
      ∙ ap (λ d. decoded json (q.select j d)) file
      ∙ ap (decoded json) (acts (connection_for_thread writer s).1.file)
      ∙ ap (λ o. decoded json (row o)) (rows j)

  -- On a file, a value that `json` gives back as it was can be put under a key, and then any thread
  -- reads it there, and under the other keys what it read before.
  pub sqlite_get-put :
      (json : Json) (writer reader : ℕ) (k j text : String) (v : Value) (now : ℤ)
      (s : SqliteStorage q)
      → OnFile s
      → Encodes json v text
      → let (o, s') = put json writer k v now s in
        (o ≡ returned tt)
        × ((get json reader j s').0 ≡ (if str_eq k j then returned v else (get json reader j s).0))
  unfolding put
  sqlite_get-put json writer reader k j text v now s h (enc, dec) = rw enc (
    refl,
    get-execute json writer reader j (q.upsert k text now)
          (λ row. if str_eq k j then some text else row) s h (lawful.select-upsert k j text now)
        ∙ elim (Bool-cases (str_eq k j)) [
          | inl e ↦ rw e dec
          | inr e ↦ rw e (sym (get-file json reader j s h))
        ],
  )

  -- A deleted key reads as `None` from any thread, and the other keys as before.
  pub sqlite_get-delete :
      (json : Json) (writer reader : ℕ) (k j : String) (s : SqliteStorage q)
      → OnFile s
      → (get json reader j (delete writer k s)).0
        ≡ (if str_eq k j then returned null else (get json reader j s).0)
  unfolding delete
  sqlite_get-delete json writer reader k j s h =
      get-execute json writer reader j (q.delete k) (λ row. if str_eq k j then none else row) s h
        (lawful.select-delete k j)
      ∙ elim (Bool-cases (str_eq k j)) [
        | inl e ↦ rw e
        | inr e ↦ rw e (sym (get-file json reader j s h))
      ]

-- Two threads with different connections to `:memory:`
module _ {q : Sqlite} (json : Json) (writer reader : ℕ) (j : String) (s : SqliteStorage q) {c d : ℕ}
    (m : str_eq s.path ":memory:" ≡ true) (w : conn_of writer s.local ≡ some c)
    (r : conn_of reader s.local ≡ some d) (apart : d == c ≡ false) where
  execute_apart :
      (statement : q.Db → q.Db)
      → (get json reader j (execute writer statement s)).0 ≡ (get json reader j s).0
  unfolding get execute connection_for_thread
  execute_apart statement = rw (w, m) (rw (r, m) (rw apart))

  put_encoded_apart :
      (k : String) (now : ℤ) (o : Outcome String)
      → (get json reader j (put_encoded writer k now s o).1).0 ≡ (get json reader j s).0
  unfolding execute
  put_encoded_apart k now (returned text) = execute_apart (q.upsert k text now)
  put_encoded_apart k now (raised (violation v)) = refl
  put_encoded_apart k now (raised (exception cls message)) = refl
  put_encoded_apart k now (raised (base_exception cls message)) = refl

  -- On `:memory:` threads with different connections share nothing: what one puts, whatever `json`
  -- makes of it, the other does not read.
  pub memory_apart :
      (k : String) (v : Value) (now : ℤ)
      → (get json reader j (put json writer k v now s).1).0 ≡ (get json reader j s).0
  unfolding put
  memory_apart k v now = put_encoded_apart k now (json.dumps v)
