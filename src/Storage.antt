-- ===== src/Storage.antt =====
-- src/primal_ai/storage: what the components use of a store, and storage/memory.py. A missing key
-- reads as `None`. `refuses v` is what `put` raises on the value v, without storing it, and `put` what
-- it does otherwise; the in-memory store takes every value.
pub mod Sqlite
use primal_core.Base.{Option, none, Exc, ◌≡◌, String, arith, get_or, if◌then◌else◌, str_eq}
use primal_core.Base.Dict.{Dict, get, put, pop, get-put, get-pop}
use primal_core.Base.Value.{Value, null}

pub record Storage : Type 1 where
  pub State : Type 0
  pub refuses : Value → Option Exc
  pub put : String → Value → State → State
  pub get : String → State → Value
  pub delete : String → State → State

pub record IsLawful (T : Storage) : Type 0 where
  pub get-put :
      (k j : String) (v : Value) (s : T.State)
      → T.get j (T.put k v s) ≡ (if str_eq k j then v else T.get j s)
  pub get-delete :
      (k j : String) (s : T.State)
      → T.get j (T.delete k s) ≡ (if str_eq k j then null else T.get j s)

-- `InMemoryStorage`
abbrev pub memory_put : String → Value → Dict Value → Dict Value
memory_put k v d = put k v d

abbrev pub memory_get : String → Dict Value → Value
memory_get k d = get_or (get k d) null

abbrev pub memory_delete : String → Dict Value → Dict Value
memory_delete k d = pop k d

abbrev pub memory_storage : Storage
memory_storage = record {
  State = Dict Value;
  refuses = λ v. none;
  put = memory_put;
  get = memory_get;
  delete = memory_delete;
}

-- The in-memory store returns what was last put under a key, and nothing after a delete; other keys
-- keep their values.
pub memory_storage-IsLawful : IsLawful memory_storage
memory_storage-IsLawful = record {
  get-put = λ k j v d. ground (arith, get-put k j v d);
  get-delete = λ k j d. ground (arith, get-pop k j d);
}
