-- ===== src/Suites/Stored.antt =====
-- What the operations on custom suites return is what is stored.
use distributed_verification.Prelude.{
  ℕ, ◌≡◌, refl, ◌≢◌, sym, ap, none, some, arith, ==_refl, first, update, delete, count,
  first-select_snoc, first-update_self, select-delete_self, select-delete_ne,
}
use distributed_verification.Model.{CustomSuite, Db}
use distributed_verification.Access.{ok, not_found, or_raise, or_raise-eq-ok, >>=-eq-ok}
use distributed_verification.Suites.{
  SuiteCreate, SuiteUpdate, is_suite, find_suite, create_custom_suite, set_suite,
  update_custom_suite, delete_custom_suite,
}

-- A suite that is created can be found under its id, which no suite has before.
pub find_suite-create_custom_suite :
    (now : ℕ) (payload : SuiteCreate) (db : Db)
    → count (is_suite db.next_id) db.suites ≡ 0
    → let (suite, after) = create_custom_suite now payload db in
      find_suite suite.id after ≡ some suite
unfolding create_custom_suite
find_suite-create_custom_suite now payload db fresh =
    first-select_snoc (is_suite db.next_id) db.suites (create_custom_suite now payload db).0 fresh
      (==_refl db.next_id)

-- An update that succeeds stores the suite that it returns.
pub find_suite-update_custom_suite :
    (id : ℕ) (payload : SuiteUpdate) (db after : Db) (suite : CustomSuite)
    → update_custom_suite id payload db ≡ ok (suite, after)
    → find_suite id after ≡ some suite
unfolding update_custom_suite
find_suite-update_custom_suite id payload db after suite e =
    let (old, found_ok, e₁) = >>=-eq-ok (or_raise (find_suite id db) not_found) _ e in
    let found = or_raise-eq-ok (find_suite id db) not_found found_ok in
    let stored : Db = record db { suites = update (is_suite id) (set_suite payload) db.suites } in
    let same_suite : set_suite payload old ≡ suite = cc in
    let same_db : stored ≡ after = cc in
    rw (sym same_suite, sym same_db)
      (first-update_self (is_suite id) (set_suite payload) db.suites {x = old} (λ s. refl) found)

-- A deletion that succeeds removes the suite, and leaves the others as they are found.
pub find_suite-delete_custom_suite :
    (id other : ℕ) (db after : Db)
    → delete_custom_suite id db ≡ ok after
    → (find_suite id after ≡ none) × (other ≢ id → find_suite other after ≡ find_suite other db)
unfolding delete_custom_suite
find_suite-delete_custom_suite id other db after e =
    let (old, _, e₁) = >>=-eq-ok (or_raise (find_suite id db) not_found) _ e in
    let stored : Db = record db { suites = delete (is_suite id) db.suites } in
    let same : stored ≡ after = cc in
    rw (sym same) (
      ap first (select-delete_self (is_suite id) db.suites),
      λ ne.
          ap first
            (select-delete_ne (is_suite other) (is_suite id) db.suites (λ s h. ground arith)),
    )
