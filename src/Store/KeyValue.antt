-- ===== src/Store/KeyValue.antt =====
-- The database under a layer, an interface of the main chain's package `store/database`; a missing
-- key is an error for `Get`, and no error for `Has`.
use theta_protocol_subchain.Prelude.{[]}
use theta_protocol_subchain.Prelude.{
  ℕ, ◌≡◌, refl, Bool, Option, none, some, is_some, ◌==◌, if◌then◌else◌,
}
use theta_protocol_subchain.Prelude.Dict.{
  Dict, lookup, insert, erase, lookup-insert, lookup-erase, lookup-empty,
}

pub record KeyValueStore (V : Type 0) : Type 1 where
  pub Db : Type 0
  pub create : Db
  pub get : Db → ℕ → Option V
  pub has : Db → ℕ → Option Bool
  pub put : Db → ℕ → V → Db
  pub delete : Db → ℕ → Db
  pub get-create : (k : ℕ) → get create k ≡ none
  pub get-put :
      (db : Db) (k j : ℕ) (v : V) → get (put db k v) j ≡ (if k == j then some v else get db j)
  pub get-delete : (db : Db) (k j : ℕ) → get (delete db k) j ≡ (if k == j then none else get db j)
  pub has-get : (db : Db) (k : ℕ) → has db k ≡ some (is_some (get db k))

-- The store of an association list.
abbrev pub in_memory : (V : Type 0) → KeyValueStore V
in_memory V = record {
  Db = Dict V;
  create = [];
  get = λ db k. lookup k db;
  has = λ db k. some (is_some (lookup k db));
  put = λ db k v. insert k v db;
  delete = λ db k. erase k db;
  get-create = λ k. lookup-empty k;
  get-put = λ db k j v. lookup-insert k j v db;
  get-delete = λ db k j. lookup-erase k j db;
  has-get = λ db k. refl;
}
