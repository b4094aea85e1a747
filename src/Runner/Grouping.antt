-- ===== src/Runner/Grouping.antt =====
-- runner.py: _group_tests_by_file. A run starts one process for each group; the dictionary is the
-- list of its items, in the order in which the keys are set.
use mathlib.Core.List.{append_assoc, append-nil}
use distributed_verification.Prelude.{
  ◌≡◌, refl, sym, ◌∙◌, inl, inr, List, [], ◌∷◌, ◌++◌, arith, Text, text_eq, text_eq_iff, Bool-cases,
  if◌then◌else◌, select,
}
use distributed_verification.Runs.{file_part}

abbrev pub Groups : Type 0
Groups = List (Text × List Text)

-- A `defaultdict(list)`: a missing key reads as no tests.
unfoldable pub tests_of : Text → Groups → List Text
tests_of file [] = []
tests_of file ((f, tests) ∷ groups) = if text_eq f file then tests else tests_of file groups

-- `groups[file_path].append(nodeid)`.
unfoldable pub append_test : Text → Text → Groups → Groups
append_test file nodeid [] = (file, nodeid ∷ []) ∷ []
append_test file nodeid ((f, tests) ∷ groups) =
    if text_eq f file
    then (f, tests ++ nodeid ∷ []) ∷ groups
    else (f, tests) ∷ append_test file nodeid groups

unfoldable pub group_into : Groups → List Text → Groups
unfolding append_test file_part
group_into groups [] = groups
group_into groups (nodeid ∷ nodeids) =
    group_into (append_test (file_part nodeid) nodeid groups) nodeids

unfoldable pub group_tests_by_file : List Text → Groups
unfolding group_into
group_tests_by_file selected_tests = group_into [] selected_tests

tests_of-append_test :
    (file f nodeid : Text) (groups : Groups)
    → tests_of file (append_test f nodeid groups)
      ≡ (if text_eq f file then tests_of file groups ++ nodeid ∷ [] else tests_of file groups)
unfolding tests_of append_test
tests_of-append_test file f nodeid [] = ground (arith, text_eq_iff f file)
tests_of-append_test file f nodeid ((g, tests) ∷ groups) = ground (
  arith,
  text_eq_iff g f,
  text_eq_iff g file,
  text_eq_iff f file,
  tests_of-append_test file f nodeid groups,
)

tests_of-group_into :
    (file : Text) (groups : Groups) (nodeids : List Text)
    → tests_of file (group_into groups nodeids)
      ≡ tests_of file groups ++ select (λ n. text_eq (file_part n) file) nodeids
unfolding group_into
tests_of-group_into file groups [] = sym (append-nil (tests_of file groups))
tests_of-group_into file groups (n ∷ nodeids) =
    let step = tests_of-append_test file (file_part n) n groups in
    tests_of-group_into file (append_test (file_part n) n groups) nodeids
    ∙ elim (Bool-cases (text_eq (file_part n) file)) [
      | inl e ↦
          rw (step, e)
            (append_assoc (tests_of file groups) (n ∷ [])
              (select (λ x. text_eq (file_part x) file) nodeids))
      | inr e ↦ rw (step, e) refl
    ]

-- The tests of a file, in the groups, are the selected tests whose part before "::" is the file, in
-- the order of the selection.
pub tests_of-group_tests_by_file :
    (file : Text) (selected_tests : List Text)
    → tests_of file (group_tests_by_file selected_tests)
      ≡ select (λ n. text_eq (file_part n) file) selected_tests
unfolding group_tests_by_file tests_of
tests_of-group_tests_by_file file selected_tests = tests_of-group_into file [] selected_tests
