-- ===== src/Tests/DiscoveryTests.antt =====
-- The theorems on the discovery and the suites at small files.
use distributed_verification.Prelude.{
  inl, ℕ, ◌≡◌, refl, Bool, true, ◌==◌, some, List, [], ◌∷◌, All, codes, arith, if◌then◌else◌,
}
use distributed_verification.Model.{Db}
use distributed_verification.Discovery.{SourceFile, discover_nodeids_from_file, discover_tests}
use distributed_verification.Runner.CliCapture.{skip_spaces}
use distributed_verification.Discovery.Lines.{is_indented}
use distributed_verification.Discovery.Source.{
  Item, function, test_class, other, render, nodeids_of, SpaceLaws, IsItem,
}
use distributed_verification.Discovery.RoundTrip.{discover-render}
use distributed_verification.Discovery.Names.{IsTestItem, discover_tests-IsTestItem}
use distributed_verification.Discovery.Cache.{
  Call, empty_cache, answers, AllFresh, get_all_test_nodeids_fresh,
}
use distributed_verification.Tests.Samples.{contended}

-- Blanks and tabs.
abbrev is_blank : ℕ → Bool
is_blank c = if c == b' ' then true else c == b'\t'

blank_laws : SpaceLaws is_blank
blank_laws = record { blank = refl; letter = λ c h. ground arith }

-- A test function, an import, and a class with a method.
abbrev items : List Item
items =
    other (codes "import os") (codes "" ∷ [])
    ∷ function (record {
      indent = [];
      name = codes "one";
      tail = codes "():";
      body = codes "    assert True" ∷ [];
    })
    ∷ test_class (codes "Two") (codes ":") [] (
        record {
          indent = codes "    ";
          name = codes "three";
          tail = codes "(self):";
          body = codes "        pass" ∷ [];
        }
        ∷ [])
    ∷ []

items-IsItem : All (IsItem is_blank) items
unfolding skip_spaces is_indented
items-IsItem = (
  ((refl, (refl, refl, inl refl)), ((refl, (refl, refl, inl refl)), tt)),
  (
    ((refl, refl, ((refl, (refl, refl, inl refl)), tt)), refl),
    (
      (refl, refl, tt, (((refl, refl, ((refl, (refl, refl, inl refl)), tt)), refl, refl), tt), tt),
      tt,
    ),
  ),
)

abbrev test_file : SourceFile
test_file = record { posix_path = codes "tests/test_a.py"; lines = render items }

discover-render_example :
    discover_nodeids_from_file is_blank test_file ≡ nodeids_of (codes "tests/test_a.py") items
discover-render_example =
    discover-render is_blank (codes "tests/test_a.py") items blank_laws items-IsItem

-- The same, computed.
discovered :
    discover_nodeids_from_file is_blank test_file
    ≡ codes "tests/test_a.py::test_one" ∷ codes "tests/test_a.py::TestTwo::test_three" ∷ []
unfolding discover_nodeids_from_file
discovered = refl

-- A class whose name does not begin with Test leaves the class before it open.
helper_class :
    discover_nodeids_from_file is_blank (record {
      posix_path = codes "t.py";
      lines = codes "class TestA:" ∷ codes "class Helper:" ∷ codes "    def test_x(self):" ∷ [];
    })
    ≡ codes "t.py::TestA::test_x" ∷ []
unfolding discover_nodeids_from_file
helper_class = refl

-- A coroutine is not discovered.
coroutine :
    discover_nodeids_from_file is_blank
      (record { posix_path = codes "t.py"; lines = codes "async def test_x():" ∷ [] })
    ≡ []
unfolding discover_nodeids_from_file
coroutine = refl

abbrev calls : List Call
calls =
    record { now = 100; files = test_file ∷ [] }
    ∷ record { now = 105; files = [] }
    ∷ record { now = 110; files = [] }
    ∷ []

get_all_test_nodeids_fresh_example : AllFresh is_blank [] calls (answers is_blank calls empty_cache)
get_all_test_nodeids_fresh_example = get_all_test_nodeids_fresh is_blank calls

discover_tests-IsTestItem_example :
    All IsTestItem
      (discover_tests is_blank (test_file ∷ []) (λ key. test_file ∷ []) (some (codes "k1")))
discover_tests-IsTestItem_example =
    discover_tests-IsTestItem is_blank (test_file ∷ []) (λ key. test_file ∷ []) (some (codes "k1"))

-- Two runs of the suite "all".
abbrev linked : Db
linked = record contended {
  links =
      record { run_id = 1; suite_id = codes "all" }
      ∷ record { run_id = 2; suite_id = codes "all" }
      ∷ [];
}
