-- ===== src/Reports/PerTest.antt =====
-- runner.py: _split_per_test_reports, one file per test case, and the index of the files.
pub mod Index
use distributed_verification.Prelude.{
  Option, none, some, List, [], ◌∷◌, ◌++◌, Text, codes, contains, ◌==◌, if◌then◌else◌, take, put,
}
use distributed_verification.Reports.{
  Element, attribute_of, text_of, find, CaseStatus, verdict, verdict_of, iter, test_cases,
}
use distributed_verification.Reports.Json.{dots_to_slashes}

pub record TestData : Type 0 where
  pub nodeid : Text
  pub classname : Text
  pub name : Text
  pub file : Text
  pub status : CaseStatus
  pub message : Text
  pub details : Text
  pub stdout : Text
  pub stderr : Text

abbrev pub nodeid_of : Element → Text
nodeid_of tc = elim (attribute_of (codes "classname") tc) [
  | [] ↦ attribute_of (codes "name") tc
  | c ∷ t ↦ dots_to_slashes (c ∷ t) ++ codes "::" ++ attribute_of (codes "name") tc
]

-- `text.rsplit("/", 1)[0]`: what is before the last slash, or all of it.
unfoldable pub before_slash : Text → Option Text
before_slash [] = none
before_slash (c ∷ t) =
    let rest = before_slash t in
    elim rest [ some before ↦ some (c ∷ before) | none ↦ if c == b'/' then some [] else none ]

abbrev pub rsplit_first : Text → Text
rsplit_first t = elim (before_slash t) [ some before ↦ before | none ↦ t ]

abbrev pub test_file : Text → Text
test_file classname =
    if contains (codes ".") classname
    then rsplit_first (dots_to_slashes classname) ++ codes ".py"
    else classname

-- `(element.text or "")[:5000] if element is not None else ""`.
abbrev pub output_of : Option Element → Text
output_of none = []
output_of (some e) = take 5000 (text_of e)

unfoldable pub test_data : Element → TestData
unfolding before_slash verdict_of
test_data tc =
    let classname = attribute_of (codes "classname") tc in
    let v = verdict tc in
    record {
      nodeid = nodeid_of tc;
      classname = classname;
      name = attribute_of (codes "name") tc;
      file = test_file classname;
      status = v.status;
      message = v.message;
      details = take 2000 v.details;
      stdout = output_of (find (codes "system-out") tc);
      stderr = output_of (find (codes "system-err") tc);
    }

-- What is written: the result.json of each directory, and the index.
pub record PerTest : Type 0 where
  pub results : List (Text × Option TestData)
  pub index : List (Text × Option Text)

-- `safe_name`: the first 12 digits of the md5 sum.
module _ (safe_name : Text → Text) where
  unfoldable pub split_cases : List Element → PerTest → PerTest
  unfolding put test_data
  split_cases [] out = out
  split_cases (tc ∷ tcs) out = split_cases tcs (record {
    results = put (safe_name (nodeid_of tc)) (some (test_data tc)) out.results;
    index = put (nodeid_of tc) (some (safe_name (nodeid_of tc))) out.index;
  })

  unfoldable pub split_per_test_reports : Element → PerTest → PerTest
  unfolding split_cases iter
  split_per_test_reports root out =
      split_cases (test_cases root) (record { results = out.results; index = [] })
