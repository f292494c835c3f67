-- ===== src/Blocklist/Cache.antt =====
-- The cache and the table of src/infra/blocklist/mod.rs: what a lookup finds, and their agreement.
use solana_compliance_relaye.Prelude.{
  ◌≡◌, refl, sym, ap, ◌∙◌, Option, none, some, List, [], ◌∷◌, String, str_eq, eq_iff, arith,
  if◌then◌else◌, or_else, inl, inr, Option-cases,
}
use solana_compliance_relaye.Runtime.{Env, World}
use solana_compliance_relaye.Runtime.Keeps.{Keeps}
use solana_compliance_relaye.Database.Statement.{statement, Keeps-statement}
use solana_compliance_relaye.Blocklist.{
  lookup, insert, remove, check_in, check_address, cache_insert, cache_remove, load_rows,
  load_from_database, add_address, remove_address,
}

pub lookup-insert :
    (j k v : String) (m : List (String × String))
    → lookup j (insert k v m) ≡ (if str_eq k j then some v else lookup j m)
unfolding lookup insert
lookup-insert j k v [] = ground arith
lookup-insert j k v ((i, u) ∷ m) =
    ground (arith, eq_iff i k, eq_iff i j, eq_iff k j, lookup-insert j k v m)

pub lookup-remove :
    (j k : String) (m : List (String × String))
    → lookup j (remove k m) ≡ (if str_eq k j then none else lookup j m)
unfolding lookup remove
lookup-remove j k [] = ground arith
lookup-remove j k ((i, u) ∷ m) =
    ground (arith, eq_iff i k, eq_iff i j, eq_iff k j, lookup-remove j k m)

-- A service with a cache, which agrees with the table.
pub record IsInStep (w : World) : Type 0 where
  pub store : List (String × String)
  pub cached : w.blocklist ≡ some store
  pub agrees : (a : String) → lookup a store ≡ lookup a w.blocklist_rows

add_address-IsInStep : (env : Env) (a r : String) → Keeps IsInStep (add_address env a r)
unfolding add_address
add_address-IsInStep env a r =
    Keeps-statement env _ _
      (λ w n h. record { store = h.store; cached = h.cached; agrees = h.agrees })
      (λ now w h. record {
        store = insert a r h.store;
        cached = ap (cache_insert a r) h.cached;
        agrees = λ b.
            lookup-insert b a r h.store
            ∙ rw (h.agrees b) (sym (lookup-insert b a r w.blocklist_rows));
      })

remove_address-IsInStep : (env : Env) (a : String) → Keeps IsInStep (remove_address env a)
unfolding remove_address
remove_address-IsInStep env a =
    Keeps-statement env _ _
      (λ w n h. record { store = h.store; cached = h.cached; agrees = h.agrees })
      (λ now w h. record {
        store = remove a h.store;
        cached = ap (cache_remove a) h.cached;
        agrees = λ b.
            lookup-remove b a h.store ∙ rw (h.agrees b) (sym (lookup-remove b a w.blocklist_rows));
      })

-- The table's primary key: no address twice.
abbrev pub DistinctAddresses : List (String × String) → Type 0
DistinctAddresses [] = Unit
DistinctAddresses ((a, r) ∷ rows) = (lookup a rows ≡ none) × DistinctAddresses rows

lookup-load_rows :
    (b : String) (rows store : List (String × String))
    → DistinctAddresses rows
    → lookup b (load_rows rows store) ≡ or_else (lookup b rows) (lookup b store)
unfolding load_rows lookup
lookup-load_rows b [] store u = refl
lookup-load_rows b ((a, r) ∷ rows) store u =
    lookup-load_rows b rows (insert a r store) u.1
    ∙ ground (arith, lookup-insert b a r store, eq_iff a b, u.0)

or_else-none : (o : Option String) → or_else o none ≡ o
or_else-none none = refl
or_else-none (some a) = refl

-- Loading a table without repeated addresses, when the database answers, gives a cache that agrees
-- with it.
pub load-IsInStep :
    (env : Env) (w : World)
    → env.fault w.tick ≡ none
    → DistinctAddresses w.blocklist_rows
    → IsInStep (load_from_database env w).1
unfolding load_from_database statement lookup
load-IsInStep env w up u = rw up (record {
  store = load_rows w.blocklist_rows [];
  cached = refl;
  agrees = λ b. lookup-load_rows b w.blocklist_rows [] u ∙ or_else-none _;
})

-- A cache that agrees with the table still does so after an address is added or removed, whether the
-- database answers or not.
pub blocklist_stays-IsInStep :
    (env : Env) (a reason : String) (w : World)
    → IsInStep w
    → IsInStep (add_address env a reason w).1 × IsInStep (remove_address env a w).1
blocklist_stays-IsInStep env a reason w h =
    ((add_address-IsInStep env a reason).at w h, (remove_address-IsInStep env a).at w h)

-- On a service with a blocklist, an added address is then blocked with its new reason, a removed one
-- is not blocked, and the answer for every other address stays; when the database does not answer,
-- every answer stays.
pub blocklist_effects :
    (env : Env) (a reason b : String) (store : List (String × String)) (w : World)
    → w.blocklist ≡ some store
    → (check_address b (add_address env a reason w).1 ≡ elim (env.fault w.tick) [
      | none ↦ if str_eq a b then some reason else check_address b w
      | some _ ↦ check_address b w
    ])
      × (check_address b (remove_address env a w).1 ≡ elim (env.fault w.tick) [
        | none ↦ if str_eq a b then none else check_address b w
        | some _ ↦ check_address b w
      ])
unfolding add_address remove_address statement check_address check_in
blocklist_effects env a reason b store w cached = elim (Option-cases (env.fault w.tick)) [
  | inl up ↦ rw (up, cached) (lookup-insert b a reason store, lookup-remove b a store)
  | inr (e, down) ↦ rw down (refl, refl)
]
