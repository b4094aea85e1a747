-- ===== src/Reports/PerTest/Index.antt =====
-- The index names the directory of every test case.
use distributed_verification.Prelude.{
  ◌≡◌, refl, ap, ◌∙◌, inl, inr, none, some, List, [], ◌∷◌, Text, text_eq, text_eq_iff, text_eq_refl,
  All, get_or, put, get_or-put, Bool-cases,
}
use distributed_verification.Reports.{Element, test_cases}
use distributed_verification.Reports.PerTest.{
  nodeid_of, PerTest, test_data, split_cases, split_per_test_reports,
}

module _ (safe_name : Text → Text) where
  -- The entry of a node id, once it is there, stays.
  split_cases-keeps :
      (tcs : List Element) (out : PerTest) (k : Text)
      → get_or none k out.index ≡ some (safe_name k)
      → get_or none k (split_cases safe_name tcs out).index ≡ some (safe_name k)
  unfolding split_cases
  split_cases-keeps [] out k h = h
  split_cases-keeps (tc ∷ tcs) out k h =
      let nid = nodeid_of tc in
      let next : PerTest = record {
        results = put (safe_name nid) (some (test_data tc)) out.results;
        index = put nid (some (safe_name nid)) out.index;
      } in
      let here : get_or none k next.index ≡ some (safe_name k) =
        get_or-put none nid k (some (safe_name nid)) out.index ∙ elim (Bool-cases (text_eq nid k)) [
          | inl e ↦ rw e (ap (λ t. some (safe_name t)) ((text_eq_iff nid k).0 e))
          | inr e ↦ rw e h
        ] in
      split_cases-keeps tcs next k here

  split_cases-index :
      (tcs : List Element) (out : PerTest)
      → All
          (λ tc.
            get_or none (nodeid_of tc) (split_cases safe_name tcs out).index
            ≡ some (safe_name (nodeid_of tc)))
          tcs
  unfolding split_cases
  split_cases-index [] out = tt
  split_cases-index (tc ∷ tcs) out =
      let nid = nodeid_of tc in
      let next : PerTest = record {
        results = put (safe_name nid) (some (test_data tc)) out.results;
        index = put nid (some (safe_name nid)) out.index;
      } in
      (
        split_cases-keeps tcs next nid
            (get_or-put none nid nid (some (safe_name nid)) out.index ∙ rw (text_eq_refl nid) refl),
        split_cases-index tcs next,
      )

  -- The index of a report has the node id of each of its test cases, with the directory that its name
  -- gives.
  pub index-split_per_test_reports :
      (root : Element) (out : PerTest)
      → All
          (λ tc.
            get_or none (nodeid_of tc) (split_per_test_reports safe_name root out).index
            ≡ some (safe_name (nodeid_of tc)))
          (test_cases root)
  unfolding split_per_test_reports
  index-split_per_test_reports root out =
      split_cases-index (test_cases root) (record { results = out.results; index = [] })
