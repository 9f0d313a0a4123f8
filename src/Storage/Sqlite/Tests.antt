-- ===== src/Storage/Sqlite/Tests.antt =====
-- Runs of src/primal_ai/storage/sqlite.py on a table that is a dict, with an encoding of texts only.
use primal_core.Base.{
  String, [], ◌∷◌, Outcome, returned, raised, exception, str_eq, if◌then◌else◌, ◌≡◌, refl,
}
use primal_core.Base.Dict.{Dict, put as put_key, pop, keys, get-put, get-pop}
use primal_core.Base.Dict.{get as get_key}
use primal_core.Base.Int.{pos}
use primal_core.Base.Value.{Value, null, str, int}
use primal_core.Storage.Sqlite.{Sqlite, Json, SqliteStorage, init, put, get}
use primal_core.Storage.Sqlite.Refinement.{IsSqlite, sqlite_get-put}

abbrev table : Sqlite
table = record {
  Db = Dict String;
  empty = [];
  configure = λ d. d;
  upsert = λ k text now d. put_key k text d;
  select = λ k d. get_key k d;
  delete = λ k d. pop k d;
  keys_like = λ prefix d. keys d;
}

table-IsSqlite : IsSqlite table
table-IsSqlite = record {
  select-upsert = λ k j text now d. get-put k j text d;
  select-delete = λ k j d. get-pop k j d;
  select-configure = λ j d. refl;
}

abbrev encode : Value → Outcome String
encode (str s) = returned s
encode _ = raised (exception "TypeError" "not JSON serializable")

abbrev texts : Json
texts = record { dumps = encode; loads = λ s. returned (str s) }

abbrev on_file : SqliteStorage table
on_file = init {q = table} "primal.db" 0 (("old", "value") ∷ [])

sqlite_get-put_example :
    ((put texts 0 "k" (str "v") (pos 5) on_file).0 ≡ returned tt)
    × ((get texts 1 "k" (put texts 0 "k" (str "v") (pos 5) on_file).1).0
        ≡ (if str_eq "k" "k" then returned (str "v") else (get texts 1 "k" on_file).0))
unfolding init
sqlite_get-put_example =
    sqlite_get-put table-IsSqlite texts 0 1 "k" "k" "v" (str "v") (pos 5) on_file refl (refl, refl)

refused :
    put texts 0 "k" (int (pos 1)) (pos 5) on_file ≡ (raised (exception "TypeError" "k"), on_file)
unfolding put
refused = refl

abbrev in_memory : SqliteStorage table
in_memory = (get texts 1 "k" (init {q = table} ":memory:" 0 [])).1

unseen : (get texts 1 "k" (put texts 0 "k" (str "v") (pos 5) in_memory).1).0 ≡ returned null
unfolding init get put get_key
unseen = refl
