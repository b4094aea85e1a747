-- ===== src/Reports/Endpoints/Results.antt =====
-- backend/app/api/routes.py: the endpoints that return the results of one test, of a file, and of a
-- suite. Parameters: `json.loads` of the index and of a result, `none` where it raises or a key is
-- missing. The times and the rate, which are floating-point numbers, are left out.
use distributed_verification.Prelude.{
  ℕ, zero, suc, Bool, true, false, not, ◌||◌, Option, none, some, List, [], ◌∷◌, ◌++◌, Text, codes,
  text_eq, contains, starts_with, ◌==◌, if◌then◌else◌, length, count, first, select,
}
use distributed_verification.Model.{Db}
use distributed_verification.Access.{
  not_found, internal, Result, ok, ◌>>=◌, ◌>>◌, or_raise, require, verify_run_owner,
}
use distributed_verification.Runs.{truthy_text}
use distributed_verification.Runner.Lines.{last_part_from}
use distributed_verification.Reports.Json.{dots_to_slashes}
use distributed_verification.Reports.Endpoints.{RunDir, Disk, is_empty}
use distributed_verification.Suites.Auto.{Suite}

-- `text.endswith(suffix)`.
unfoldable pub ends_with : Text → Text → Bool
ends_with suffix [] = text_eq suffix []
ends_with suffix (c ∷ t) = let rest = ends_with suffix t in text_eq suffix (c ∷ t) || rest

-- `nodeid.split("::")[-1] if "::" in nodeid else nodeid`.
abbrev pub short_name : Text → Text
short_name nodeid = if contains (codes "::") nodeid then last_part_from [] 0 nodeid else nodeid

-- The keys of a result.json that the endpoints read.
pub record TestResult : Type 0 where
  pub nodeid : Text
  pub status : Text

-- index.json: the folder of each node id.
abbrev pub TestIndex : Type 0
TestIndex = List (Text × Text)

abbrev pub folder_at : Text → TestIndex → Option Text
folder_at nodeid [] = none
folder_at nodeid ((key, folder) ∷ index) =
    let rest = folder_at nodeid index in if text_eq key nodeid then some folder else rest

-- The first key that ends with "::" and the name, `for ... break`.
abbrev pub named_entry : Text → TestIndex → Option (Text × Text)
named_entry name index =
    first (select (λ (entry : Text × Text). ends_with (codes "::" ++ name) entry.0) index)

abbrev pub folder_named : Text → TestIndex → Option Text
folder_named name index = elim (named_entry name index) [ none ↦ none | some entry ↦ some entry.1 ]

-- The folder of a test: by its node id, or by its name. An empty name counts as none.
unfoldable pub find_folder : Text → TestIndex → Option Text
unfolding last_part_from ends_with
find_folder nodeid index = elim (truthy_text (folder_at nodeid index)) [
  | some folder ↦ some folder
  | none ↦ folder_named (short_name nodeid) index
]

pub record TestReport : Type 0 where
  pub result : Option TestResult
  pub junit_xml : Option Text

abbrev pub read_if_there : Text → RunDir → Option Text
read_if_there path dir = if dir.exists path then some (dir.read_text path) else none

abbrev pub index_path : Text
index_path = codes "tests/index.json"

abbrev pub result_path : Text → Text
result_path folder = codes "tests/" ++ folder ++ codes "/result.json"

-- `summary`.
pub record Summary : Type 0 where
  pub total : ℕ
  pub passed : ℕ
  pub failed : ℕ
  pub errors : ℕ
  pub skipped : ℕ

abbrev pub has_result : Text → TestResult → Bool
has_result status t = text_eq t.status status

unfoldable pub summary_of : List TestResult → Summary
summary_of tests = record {
  total = length tests;
  passed = count (has_result (codes "passed")) tests;
  failed = count (has_result (codes "failed")) tests;
  errors = count (has_result (codes "error")) tests;
  skipped = count (has_result (codes "skipped")) tests;
}

pub record ResultsReport : Type 0 where
  pub summary : Summary
  pub tests : List TestResult

abbrev pub report_on : List TestResult → ResultsReport
report_on tests = record { summary = summary_of tests; tests = tests }

-- What the endpoint for a file returns: summary.json as it is, with junit.xml, or an aggregate.
pub data FileReport : Type 0 where
  generated : Text → Option Text → FileReport
  aggregated : ResultsReport → FileReport

-- `file_path.replace("/", "__").replace("\\", "__").replace(".py", "")`: `skip` characters of a
-- ".py" are still to be passed.
unfoldable pub file_key_from : ℕ → Text → Text
file_key_from skip [] = []
file_key_from (suc skip) (c ∷ t) = file_key_from skip t
file_key_from zero (c ∷ t) =
    let cut = starts_with (codes ".py") (c ∷ t) in
    let rest = file_key_from (if cut then 2 else 0) t in
    if cut then rest else (if c == b'/' || c == b'\\' then codes "__" ++ rest else c ∷ rest)

abbrev file_dir : Text → Text
file_dir file_path = codes "files/" ++ file_key_from 0 file_path

-- The part before the first "::".
unfoldable pub first_part : Text → Text
first_part [] = []
first_part (c ∷ t) =
    let rest = first_part t in if starts_with (codes "::") (c ∷ t) then [] else c ∷ rest

-- The file of a key of the index, and whether it is the one that is asked for.
abbrev pub with_py : Text → Text
with_py t = if ends_with (codes ".py") t then t else t ++ codes ".py"

abbrev pub index_file : Text → Text
index_file nodeid = with_py (dots_to_slashes (first_part nodeid))

unfoldable pub is_in_file : Text → Text → Bool
unfolding first_part ends_with
is_in_file file_path nodeid =
    let test_file = index_file nodeid in
    text_eq test_file file_path || ends_with file_path test_file || contains file_path test_file

-- The folders of the tests of a file, in the order of the index.
unfoldable pub folders_in : Text → TestIndex → List Text
unfolding is_in_file
folders_in file_path [] = []
folders_in file_path ((nodeid, folder) ∷ index) =
    let rest = folders_in file_path index in
    if is_in_file file_path nodeid then folder ∷ rest else rest

-- The folders of the tests of a suite: for each the first that ends with its name.
unfoldable pub suite_folders : List Text → TestIndex → List Text
unfolding last_part_from ends_with
suite_folders [] index = []
suite_folders (nodeid ∷ nodeids) index =
    let rest = suite_folders nodeids index in
    elim (folder_named (short_name nodeid) index) [ some folder ↦ folder ∷ rest | none ↦ rest ]

module _ (parse_index : Text → Option TestIndex) (parse_result : Text → Option TestResult) where
  abbrev pub load_index : RunDir → Result TestIndex
  load_index dir = do
    require (dir.exists index_path) not_found
    or_raise (parse_index (dir.read_text index_path)) internal

  -- The results of folders that have one.
  unfoldable pub load_results : RunDir → List Text → Result (List TestResult)
  load_results dir [] = ok []
  load_results dir (folder ∷ folders) =
      let rest = load_results dir folders in
      if dir.exists (result_path folder)
      then (or_raise (parse_result (dir.read_text (result_path folder))) internal >>= λ t.
          rest >>= λ tests. ok (t ∷ tests))
      else rest

  abbrev pub load_result : RunDir → Text → Result (Option TestResult)
  load_result dir folder =
      if dir.exists (result_path folder)
      then (or_raise (parse_result (dir.read_text (result_path folder))) internal >>= λ t.
          ok (some t))
      else ok none

  unfoldable pub get_test_report : Disk → ℕ → Text → Option Text → Db → Result TestReport
  unfolding verify_run_owner find_folder
  get_test_report disk run_id nodeid client_key db = do
    run ← verify_run_owner run_id client_key db
    dir ← or_raise (disk run_id) not_found
    index ← load_index dir
    folder ← or_raise (truthy_text (find_folder nodeid index)) not_found
    require (dir.exists (codes "tests/" ++ folder)) not_found
    result ← load_result dir folder
    ok (record {
      result = result;
      junit_xml = read_if_there (codes "tests/" ++ folder ++ codes "/junit.xml") dir;
    })

  -- The aggregate of the tests whose file fits.
  unfoldable pub aggregate_file : Text → RunDir → Result FileReport
  unfolding load_results summary_of folders_in
  aggregate_file file_path dir = do
    index ← load_index dir
    tests ← load_results dir (folders_in file_path index)
    require (not (is_empty tests)) not_found
    ok (aggregated (report_on tests))

  -- `summary.json` of the file first. `is_json` tells whether `json.loads` returns.
  unfoldable pub get_file_report :
      (Text → Bool) → Disk → ℕ → Text → Option Text → Db → Result FileReport
  unfolding verify_run_owner file_key_from aggregate_file
  get_file_report is_json disk run_id file_path client_key db = do
    run ← verify_run_owner run_id client_key db
    dir ← or_raise (disk run_id) not_found
    elim (read_if_there (file_dir file_path ++ codes "/summary.json") dir) [
      | some content ↦
          require (is_json content) internal
          >> ok (generated content (read_if_there (file_dir file_path ++ codes "/junit.xml") dir))
      | none ↦ aggregate_file file_path dir
    ]

  -- The suites are those that are built from the discovered tests.
  unfoldable pub get_suite_report :
      List Suite → Disk → ℕ → Text → Option Text → Db → Result ResultsReport
  unfolding verify_run_owner load_results suite_folders summary_of
  get_suite_report built disk run_id suite_id client_key db = do
    run ← verify_run_owner run_id client_key db
    suite ← or_raise (first (select (λ (s : Suite). text_eq s.id suite_id) built)) not_found
    dir ← or_raise (disk run_id) not_found
    index ← load_index dir
    tests ← load_results dir (suite_folders suite.tests index)
    ok (report_on tests)

-- The report of a file by its key. `is_blank` tells of an empty object, which counts as no data.
pub record KeyReport : Type 0 where
  pub summary : Option Text
  pub junit_xml : Option Text

abbrev load_summary : (Text → Bool) → Option Text → Result (Option Text)
load_summary is_json none = ok none
load_summary is_json (some content) = do require (is_json content) internal; ok (some content)

abbrev has_data : (Text → Bool) → KeyReport → Bool
has_data is_blank r =
    elim r.summary [ none ↦ false | some content ↦ not (is_blank content) ]
    || elim r.junit_xml [ none ↦ false | some content ↦ true ]

unfoldable pub get_file_report_by_key :
    (Text → Bool) → (Text → Bool) → Disk → ℕ → Text → Option Text → Db → Result KeyReport
unfolding verify_run_owner
get_file_report_by_key is_json is_blank disk run_id file_key client_key db = do
  run ← verify_run_owner run_id client_key db
  dir ← or_raise (disk run_id) not_found
  require (dir.exists (codes "files/" ++ file_key)) not_found
  summary ←
      load_summary is_json (read_if_there (codes "files/" ++ file_key ++ codes "/summary.json") dir)
  let report : KeyReport = record {
    summary = summary;
    junit_xml = read_if_there (codes "files/" ++ file_key ++ codes "/junit.xml") dir;
  }
  require (has_data is_blank report) not_found
  ok report
