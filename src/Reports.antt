-- ===== src/Reports.antt =====
-- runner.py: what is made of the junit.xml files of a run: _generate_file_summary,
-- _json_from_junit, _split_per_test_reports and the merge of _finalize_reports. A file is its element
-- tree; what is written and parsed again is passed on as a tree. `int` and the name of a directory
-- (the md5 sum of a node id) are parameters. Not here: times and rates, and with them a time that is no
-- number, and the XML snippets per test. A case that passes has an empty message in place of none.
pub mod Endpoints
pub mod Generated
pub mod Json
pub mod PerTest
pub mod Merge
pub mod Counts
use distributed_verification.Prelude.{
  ℕ, ◌+◌, Bool, true, false, ◌||◌, Option, none, some, List, [], ◌∷◌, ◌++◌, map, Text, codes,
  text_eq, contains, ◌==◌, if◌then◌else◌, length, take, first, select, count, get_or, put,
}

mutual
  -- An element: its tag, its attributes, its text, and its children.
  pub data Element : Type 0 where
    node : Text → List (Text × Text) → Option Text → Elements → Element

  pub data Elements : Type 0 where
    nil : Elements
    cons : Element → Elements → Elements

abbrev pub tag_of : Element → Text
tag_of (node tag attrs text es) = tag

-- `element.get(key, "")`.
abbrev pub attribute_of : Text → Element → Text
attribute_of key (node tag attrs text es) = get_or [] key attrs

-- `element.text or ""`.
abbrev pub text_of : Element → Text
text_of (node tag attrs none es) = []
text_of (node tag attrs (some text) es) = text

abbrev pub to_list : Elements → List Element
to_list nil = []
to_list (cons e es) = e ∷ to_list es

abbrev pub from_list : List Element → Elements
from_list [] = nil
from_list (e ∷ es) = cons e (from_list es)

abbrev pub children : Element → List Element
children (node tag attrs text es) = to_list es

abbrev pub has_tag : Text → Element → Bool
has_tag tag e = text_eq (tag_of e) tag

-- `element.findall(tag)` and `element.find(tag)`.
abbrev pub find_all : Text → Element → List Element
find_all tag e = select (has_tag tag) (children e)

abbrev pub find : Text → Element → Option Element
find tag e = first (find_all tag e)

-- `element.iter(tag)`: the element itself and those below it, in the order of the document.
unfoldable mutual
  pub iter : Text → Element → List Element
  iter tag (node t attrs text es) =
      (if text_eq t tag then node t attrs text es ∷ [] else []) ++ iter_all tag es

  pub iter_all : Text → Elements → List Element
  iter_all tag nil = []
  iter_all tag (cons e es) = iter tag e ++ iter_all tag es

abbrev pub flat_map {ℓ κ} : {A : Type ℓ} {B : Type κ} → (A → List B) → List A → List B
flat_map f [] = []
flat_map f (x ∷ xs) = f x ++ flat_map f xs

pub data CaseStatus : Type 0 where
  passed failed error skipped : CaseStatus

-- The status, the message and the details of a test case.
pub record Verdict : Type 0 where
  pub status : CaseStatus
  pub message : Text
  pub details : Text

unfoldable pub verdict_of : Option Element → Option Element → Option Element → Verdict
verdict_of (some failure) e s = record {
  status = failed;
  message = attribute_of (codes "message") failure;
  details = text_of failure;
}
verdict_of none (some e) s = record {
  status = error;
  message = attribute_of (codes "message") e;
  details = text_of e;
}
verdict_of none none (some s) = record {
  status = skipped;
  message = attribute_of (codes "message") s;
  details = [];
}
verdict_of none none none = record { status = passed; message = []; details = [] }

abbrev pub verdict : Element → Verdict
verdict tc =
    verdict_of (find (codes "failure") tc) (find (codes "error") tc) (find (codes "skipped") tc)

pub record Case : Type 0 where
  pub name : Text
  pub classname : Text
  pub status : CaseStatus
  pub message : Text

abbrev pub make_case : Element → Case
make_case tc =
    let v = verdict tc in
    record {
      name = attribute_of (codes "name") tc;
      classname = attribute_of (codes "classname") tc;
      status = v.status;
      message = v.message;
    }

-- `for suite in root.iter("testsuite"): for tc in suite.findall("testcase")`.
abbrev pub test_cases : Element → List Element
test_cases root = flat_map (find_all (codes "testcase")) (iter (codes "testsuite") root)

abbrev pub is_status : CaseStatus → CaseStatus → Bool
is_status passed passed = true
is_status failed failed = true
is_status error error = true
is_status skipped skipped = true
is_status s t = false

pub record Summary : Type 0 where
  pub total : ℕ
  pub passed : ℕ
  pub failed : ℕ
  pub errors : ℕ
  pub skipped : ℕ
  pub tests : List Case

abbrev pub count_cases : CaseStatus → List Case → ℕ
count_cases s cases = count (λ c. is_status c.status s) cases

unfoldable pub generate_file_summary : Element → Summary
unfolding iter verdict_of
generate_file_summary root =
    let cases = map make_case (test_cases root) in
    record {
      total = length cases;
      passed = count_cases CaseStatus.passed cases;
      failed = count_cases CaseStatus.failed cases;
      errors = count_cases CaseStatus.error cases;
      skipped = count_cases CaseStatus.skipped cases;
      tests = cases;
    }

-- What a junit.xml adds to the merged tree; a file that cannot be parsed adds nothing.
unfoldable pub suites_of : Option Element → List Element
suites_of none = []
suites_of (some root) =
    if has_tag (codes "testsuites") root
    then find_all (codes "testsuite") root
    else (if has_tag (codes "testsuite") root then root ∷ [] else [])

unfoldable pub merge_files : List (Option Element) → Element
unfolding suites_of
merge_files files = node (codes "testsuites") [] none (from_list (flat_map suites_of files))
