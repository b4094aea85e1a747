-- ===== src/Reports/Merge.antt =====
-- The merged report has the test cases of the files.
use mathlib.Core.List.{append-nil, append_assoc, map-append}
use distributed_verification.Prelude.{
  ◌≡◌, refl, sym, ap, ◌∙◌, inl, inr, Bool, true, Option, none, some, List, [], ◌∷◌, ◌++◌, map,
  arith, Text, codes, text_eq_iff, if◌then◌else◌, All, select, Bool-cases, all,
}
use distributed_verification.Reports.{
  Element, Elements, node, nil, cons, to_list, from_list, children, has_tag, find_all, iter,
  iter_all, flat_map, test_cases, suites_of, merge_files, Case, make_case, generate_file_summary,
}

flat_map-append {ℓ κ} :
    {A : Type ℓ} {B : Type κ} (f : A → List B) (xs ys : List A)
    → flat_map f (xs ++ ys) ≡ flat_map f xs ++ flat_map f ys
flat_map-append f [] ys = refl
flat_map-append f (x ∷ xs) ys =
    rw (flat_map-append f xs ys) (sym (append_assoc (f x) (flat_map f xs) (flat_map f ys)))

flat_map-flat_map {ℓ κ μ} :
    {A : Type ℓ} {B : Type κ} {C : Type μ} (f : B → List C) (g : A → List B) (xs : List A)
    → flat_map f (flat_map g xs) ≡ flat_map (λ x. flat_map f (g x)) xs
flat_map-flat_map f g [] = refl
flat_map-flat_map f g (x ∷ xs) =
    flat_map-append f (g x) (flat_map g xs)
    ∙ ap (λ rest. flat_map f (g x) ++ rest) (flat_map-flat_map f g xs)

flat_map-ext {ℓ κ} :
    {A : Type ℓ} {B : Type κ} (f g : A → List B) (xs : List A)
    → All (λ x. f x ≡ g x) xs
    → flat_map f xs ≡ flat_map g xs
flat_map-ext f g [] h = refl
flat_map-ext f g (x ∷ xs) h = rw (h.0, flat_map-ext f g xs h.1) refl

iter_all-eq-flat_map :
    (tag : Text) (es : Elements) → iter_all tag es ≡ flat_map (iter tag) (to_list es)
unfolding iter
iter_all-eq-flat_map tag nil = refl
iter_all-eq-flat_map tag (cons e es) = ap (λ rest. iter tag e ++ rest) (iter_all-eq-flat_map tag es)

to_list-from_list : (es : List Element) → to_list (from_list es) ≡ es
to_list-from_list [] = refl
to_list-from_list (e ∷ es) = ap (λ rest. e ∷ rest) (to_list-from_list es)

-- A root that is a testsuite, or a testsuites element with nothing but testsuite elements in it.
abbrev pub is_report : Element → Bool
is_report root =
    if has_tag (codes "testsuites") root
    then all (has_tag (codes "testsuite")) (children root)
    else has_tag (codes "testsuite") root

select-all {ℓ} : {A : Type ℓ} (p : A → Bool) (xs : List A) → all p xs ≡ true → select p xs ≡ xs
select-all p [] h = refl
select-all p (x ∷ xs) h = ground (arith, select-all p xs)

abbrev iter_of : Option Element → List Element
iter_of none = []
iter_of (some root) = iter (codes "testsuite") root

-- The test cases of a file; a file that cannot be parsed has none.
abbrev pub cases_in : Option Element → List Element
cases_in none = []
cases_in (some root) = test_cases root

-- A file that cannot be parsed, or one with such a root.
abbrev pub is_report_file : Option Element → Bool
is_report_file none = true
is_report_file (some root) = is_report root

iter-under :
    (root : Element)
    → has_tag (codes "testsuites") root ≡ true
    → iter (codes "testsuite") root ≡ flat_map (iter (codes "testsuite")) (children root)
unfolding iter
iter-under (node tag attrs text es) h =
    let is_suites : tag ≡ codes "testsuites" = (text_eq_iff tag (codes "testsuites")).0 h in
    rw is_suites (iter_all-eq-flat_map (codes "testsuite") es)

iter-suites_of :
    (o : Option Element)
    → is_report_file o ≡ true
    → flat_map (iter (codes "testsuite")) (suites_of o) ≡ iter_of o
unfolding suites_of
iter-suites_of none h = refl
iter-suites_of (some root) h = elim (Bool-cases (has_tag (codes "testsuites") root)) [
  | inl e ↦
      let suites : all (has_tag (codes "testsuite")) (children root) ≡ true = rw e at h in
      rw (e, suites_of)
        (rw (select-all (has_tag (codes "testsuite")) (children root) suites)
          (sym (iter-under root e)))
  | inr e ↦
      let suite : has_tag (codes "testsuite") root ≡ true = rw e at h in
      rw (e, suites_of) (rw suite (append-nil (iter (codes "testsuite") root)))
]

flat_map-suites_of :
    (files : List (Option Element))
    → all is_report_file files ≡ true
    → flat_map (iter (codes "testsuite")) (flat_map suites_of files) ≡ flat_map iter_of files
flat_map-suites_of [] h = refl
flat_map-suites_of (o ∷ files) h =
    flat_map-append (iter (codes "testsuite")) (suites_of o) (flat_map suites_of files)
    ∙ rw (iter-suites_of o (ground arith), flat_map-suites_of files (ground arith)) refl

iter-merge_files :
    (files : List (Option Element))
    → all is_report_file files ≡ true
    → iter (codes "testsuite") (merge_files files) ≡ flat_map iter_of files
unfolding iter merge_files
iter-merge_files files h =
    iter_all-eq-flat_map (codes "testsuite") (from_list (flat_map suites_of files))
    ∙ rw (to_list-from_list (flat_map suites_of files)) (flat_map-suites_of files h)

cases-iter_of :
    (files : List (Option Element))
    → flat_map (find_all (codes "testcase")) (flat_map iter_of files) ≡ flat_map cases_in files
cases-iter_of [] = refl
cases-iter_of (none ∷ files) = cases-iter_of files
cases-iter_of (some root ∷ files) =
    flat_map-append (find_all (codes "testcase")) (iter (codes "testsuite") root)
      (flat_map iter_of files)
    ∙ ap (λ rest. test_cases root ++ rest) (cases-iter_of files)

-- The tests in the summary of a file.
abbrev pub summary_tests : Option Element → List Case
summary_tests none = []
summary_tests (some root) = (generate_file_summary root).tests

map-cases :
    (files : List (Option Element))
    → map make_case (flat_map cases_in files) ≡ flat_map summary_tests files
unfolding generate_file_summary
map-cases [] = refl
map-cases (none ∷ files) = map-cases files
map-cases (some root ∷ files) =
    map-append make_case (test_cases root) (flat_map cases_in files)
    ∙ ap (λ rest. map make_case (test_cases root) ++ rest) (map-cases files)

-- The merged report has the test cases of all the files that can be parsed, in their order, each with
-- the status and the message that the summary of its file gives it. The root of each file must be a
-- testsuite, or a testsuites element with only testsuite elements in it.
pub tests-merge_files :
    (files : List (Option Element))
    → all is_report_file files ≡ true
    → (generate_file_summary (merge_files files)).tests ≡ flat_map summary_tests files
unfolding generate_file_summary
tests-merge_files files h = rw (iter-merge_files files h, cases-iter_of files) (map-cases files)
