-- ===== src/Runner/Launches.antt =====
-- runner.py: which pytest processes capture_test_run starts, and _safe_file_key.
pub mod Keys
pub mod Missing
use distributed_verification.Prelude.{
  ℕ, zero, suc, ◌-◌, Bool, true, false, not, List, [], ◌∷◌, ◌++◌, map, Text, codes, starts_with,
  if◌then◌else◌, length, select,
}
use distributed_verification.Runner.Grouping.{group_tests_by_file}

-- `text.replace(needle, by)` for a needle that is not empty: `skip` characters of a match are
-- still to be passed.
unfoldable pub replace_from : Text → Text → ℕ → Text → Text
replace_from needle by skip [] = []
replace_from needle by (suc skip) (c ∷ t) = replace_from needle by skip t
replace_from needle by zero (c ∷ t) =
    let hit = starts_with needle (c ∷ t) in
    (if hit then by else c ∷ []) ++ replace_from needle by (if hit then length needle - 1 else 0) t

unfoldable pub safe_file_key : Text → Text
unfolding replace_from
safe_file_key file_path =
    replace_from (codes ".py") [] 0
      (replace_from (codes "\\") (codes "__") 0 (replace_from (codes "/") (codes "__") 0 file_path))

-- One pytest process: its tag, its targets, and the directory of its junit.xml.
pub record Launch : Type 0 where
  pub tag : Text
  pub targets : List Text
  pub key : Text

abbrev pub launch_of : Text × List Text → Launch
launch_of (file_path, tests) = record {
  tag = file_path;
  targets = tests;
  key = safe_file_key file_path;
}

abbrev pub flat : List (Text × List Text) → List Text
flat [] = []
flat ((f, tests) ∷ groups) = tests ++ flat groups

-- The processes that are started; without selected tests it is one for the whole `test_root`.
unfoldable pub launches : (Text → Bool) → Text → List Text → List Launch
unfolding group_tests_by_file
launches exists test_root [] =
    record { tag = codes "all"; targets = test_root ∷ []; key = codes "all" } ∷ []
launches exists test_root (nid ∷ nids) =
    map launch_of (select (λ g. exists g.0) (group_tests_by_file (nid ∷ nids)))

-- `missing_files`: the tests of the files that are not on disk.
unfoldable pub missing_tests : (Text → Bool) → List Text → List Text
unfolding group_tests_by_file
missing_tests exists selected_tests =
    flat (select (λ g. not (exists g.0)) (group_tests_by_file selected_tests))
