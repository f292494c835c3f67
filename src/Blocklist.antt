-- ===== src/Blocklist.antt =====
-- The blocklist manager, src/infra/blocklist/mod.rs: a cache in memory before the table
-- `blocklist`, both from addresses to reasons.
pub mod Cache
use solana_compliance_relaye.Prelude.{
  ℕ, ◌≡◌, Bool, true, false, ◌||◌, Option, none, some, List, [], ◌∷◌, String, str_eq, is_some,
  length, if◌then◌else◌,
}
use solana_compliance_relaye.Runtime.{Env, World, Result, ok, err, Action, pure, gets, ◌>>=◌, ◌>>◌}
use solana_compliance_relaye.Database.Statement.{query_error, statement}

unfoldable pub lookup : String → List (String × String) → Option String
lookup k [] = none
lookup k ((j, v) ∷ m) = if str_eq j k then some v else lookup k m

-- `DashMap::insert`, and the upsert of the table.
unfoldable pub insert : String → String → List (String × String) → List (String × String)
insert k v [] = (k, v) ∷ []
insert k v ((j, u) ∷ m) = if str_eq j k then (k, v) ∷ m else (j, u) ∷ insert k v m

unfoldable pub remove : String → List (String × String) → List (String × String)
remove k [] = []
remove k ((j, u) ∷ m) = if str_eq j k then remove k m else (j, u) ∷ remove k m

-- `check_address` on a service that may have no blocklist: such a service blocks nobody.
unfoldable pub check_in : Option (List (String × String)) → String → Option String
unfolding lookup
check_in none address = none
check_in (some store) address = lookup address store

unfoldable pub check_address : String → World → Option String
unfolding check_in
check_address address w = check_in w.blocklist address

abbrev pub cache_insert :
    String → String → Option (List (String × String)) → Option (List (String × String))
cache_insert k v none = none
cache_insert k v (some store) = some (insert k v store)

abbrev pub cache_remove : String → Option (List (String × String)) → Option (List (String × String))
cache_remove k none = none
cache_remove k (some store) = some (remove k store)

-- The rows read at the start, in order, each written over what stands under its address.
unfoldable pub load_rows : List (String × String) → List (String × String) → List (String × String)
unfolding insert
load_rows [] store = store
load_rows ((a, r) ∷ rows) store = load_rows rows (insert a r store)

module _ (env : Env) where
  -- `BlocklistManager::new`: an empty cache, then the rows of the table.
  unfoldable pub load_from_database : Action (Unit {0})
  unfolding load_rows
  load_from_database =
      statement env (query_error env)
        λ now w. (ok tt, record w { blocklist = some (load_rows w.blocklist_rows []) })

  -- `add_address`: the table first; the cache only if that succeeds.
  unfoldable pub add_address : String → String → Action (Unit {0})
  unfolding insert
  add_address address reason = statement env (query_error env) λ now w. (
    ok tt,
    record w {
      blocklist_rows = insert address reason w.blocklist_rows;
      blocklist = cache_insert address reason w.blocklist;
    },
  )

  -- `remove_address`: whether the address stood in the cache or in the table.
  unfoldable pub remove_address : String → Action Bool
  unfolding remove lookup check_address
  remove_address address = statement env (query_error env) λ now w. (
    ok (is_some (check_address address w) || is_some (lookup address w.blocklist_rows)),
    record w {
      blocklist_rows = remove address w.blocklist_rows;
      blocklist = cache_remove address w.blocklist;
    },
  )
