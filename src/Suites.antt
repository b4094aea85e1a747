-- ===== src/Suites.antt =====
-- backend/app/api/routes.py: the custom suites. The listing, and the time of the last
-- change, are left out.
pub mod Stored
pub mod History
pub mod Auto
pub mod Recent
pub mod Parts
use distributed_verification.Prelude.{
  ℕ, suc, Bool, Option, none, some, List, [], ◌∷◌, ◌++◌, Text, ◌==◌, first, select, delete, update,
}
use distributed_verification.Model.{CustomSuite, Db}
use distributed_verification.Access.{Result, ok, not_found, ◌>>=◌, or_raise}

-- CustomSuiteCreate.
pub record SuiteCreate : Type 0 where
  pub name : Text
  pub description : Text
  pub tests : List Text
  pub tags : List Text

-- CustomSuiteUpdate.
pub record SuiteUpdate : Type 0 where
  pub name : Option Text
  pub description : Option Text
  pub tests : Option (List Text)
  pub tags : Option (List Text)

abbrev pub is_suite : ℕ → CustomSuite → Bool
is_suite id s = s.id == id

abbrev pub find_suite : ℕ → Db → Option CustomSuite
find_suite id db = first (select (is_suite id) db.suites)

-- The result is the suite that is stored.
unfoldable pub create_custom_suite : ℕ → SuiteCreate → Db → CustomSuite × Db
create_custom_suite now payload db =
    let suite : CustomSuite = record {
      id = db.next_id;
      name = payload.name;
      description = payload.description;
      tests = payload.tests;
      tags = payload.tags;
      created_at = now;
    } in
    (suite, record db { suites = db.suites ++ suite ∷ []; next_id = suc db.next_id })

-- `if value is not None`.
abbrev pub given_or {ℓ} : {A : Type ℓ} → Option A → A → A
given_or none old = old
given_or (some new) old = new

abbrev pub set_suite : SuiteUpdate → CustomSuite → CustomSuite
set_suite payload s = record s {
  name = given_or payload.name s.name;
  description = given_or payload.description s.description;
  tests = given_or payload.tests s.tests;
  tags = given_or payload.tags s.tags;
}

unfoldable pub update_custom_suite : ℕ → SuiteUpdate → Db → Result (CustomSuite × Db)
update_custom_suite id payload db = do
  suite ← or_raise (find_suite id db) not_found
  ok (
    set_suite payload suite,
    record db { suites = update (is_suite id) (set_suite payload) db.suites },
  )

unfoldable pub delete_custom_suite : ℕ → Db → Result Db
delete_custom_suite id db = do
  suite ← or_raise (find_suite id db) not_found
  ok (record db { suites = delete (is_suite id) db.suites })
