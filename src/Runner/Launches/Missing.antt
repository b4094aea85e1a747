-- ===== src/Runner/Launches/Missing.antt =====
-- The tests that are passed over since their files are gone.
use distributed_verification.Prelude.{
  ◌+◌, ◌≡◌, ◌∙◌, inl, inr, Bool, not, List, [], ◌∷◌, ◌++◌, arith, Text, text_eq, text_eq_iff,
  Bool-cases, if◌then◌else◌, select, count, count-append,
}
use distributed_verification.Runs.{file_part}
use distributed_verification.Runner.Grouping.{Groups, append_test, group_into, group_tests_by_file}
use distributed_verification.Runner.Launches.{flat, missing_tests}

-- The tests of the groups whose file is missing.
abbrev in_missing : (Text → Bool) → Groups → List Text
in_missing exists groups = flat (select (λ g. not (exists g.0)) groups)

module _ (exists : Text → Bool) (p : Text → Bool) where
  count-append_test :
      (file nodeid : Text) (groups : Groups)
      → count p (in_missing exists (append_test file nodeid groups))
        ≡ count p (in_missing exists groups) + count p (if exists file then [] else nodeid ∷ [])
  unfolding append_test
  count-append_test file nodeid [] = elim (Bool-cases (exists file)) [
    | inl e ↦ rw e (omega arith)
    | inr e ↦ rw e (omega arith)
  ]
  count-append_test file nodeid ((f, tests) ∷ groups) = elim (Bool-cases (text_eq f file)) [
    | inl e ↦
        let same : f ≡ file = (text_eq_iff f file).0 e in
        elim (Bool-cases (exists file)) [
          | inl k ↦ rw (e, same, k) (omega arith)
          | inr k ↦
              rw (e, same, k)
                (count-append p (tests ++ nodeid ∷ []) (in_missing exists groups)
                  ∙ omega (
                    arith,
                    count-append p tests (nodeid ∷ []),
                    count-append p tests (in_missing exists groups),
                  ))
        ]
    | inr e ↦
        let step = count-append_test file nodeid groups in
        elim (Bool-cases (exists f)) [
          | inl k ↦ rw (e, k) step
          | inr k ↦
              rw (e, k)
                (count-append p tests (in_missing exists (append_test file nodeid groups))
                  ∙ omega (arith, step, count-append p tests (in_missing exists groups)))
        ]
  ]

  count-group_into :
      (groups : Groups) (nodeids : List Text)
      → count p (in_missing exists (group_into groups nodeids))
        ≡ count p (in_missing exists groups)
          + count p (select (λ n. not (exists (file_part n))) nodeids)
  unfolding group_into
  count-group_into groups [] = omega arith
  count-group_into groups (n ∷ nodeids) =
      let step = count-append_test (file_part n) n groups in
      let rest = count-group_into (append_test (file_part n) n groups) nodeids in
      elim (Bool-cases (exists (file_part n))) [
        | inl e ↦ rw e (omega (arith, rest, rw e at step))
        | inr e ↦ rw e (rest ∙ ground (arith, rw e at step))
      ]

  -- The tests that are passed over are the selected tests whose file, the part before "::", is not on
  -- the disk, each as often as it is selected.
  pub count-missing_tests :
      (selected_tests : List Text)
      → count p (missing_tests exists selected_tests)
        ≡ count p (select (λ n. not (exists (file_part n))) selected_tests)
  unfolding missing_tests group_tests_by_file
  count-missing_tests selected_tests = count-group_into [] selected_tests ∙ omega arith
