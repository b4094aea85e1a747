-- ===== src/Reports/Endpoints.antt =====
-- backend/app/api/routes.py: the endpoints that list and return the reports of a run. The directory
-- of a run is given by what the endpoints ask of it, paths being relative to it; `json.loads` is the
-- parameter `is_json`, which tells whether it returns, since its value is passed on as it is. An
-- exception that no handler catches is `internal`. Not here: the archive of download-all.
pub mod Listed
pub mod Results
pub mod Totals
use distributed_verification.Prelude.{
  ℕ, Bool, true, false, not, ◌&&◌, ◌||◌, Option, none, some, List, [], ◌∷◌, ◌++◌, map, Text, codes,
  text_eq, ◌==◌, if◌then◌else◌, any, first, select,
}
use distributed_verification.Model.{ReportData, Db}
use distributed_verification.Access.{
  HttpError, bad_request, not_found, internal, Result, raise, ok, ◌>>=◌, ◌>>◌, or_raise, require,
  verify_run_owner,
}

-- A directory: whether a path exists, is a directory, or resolves to a place below the directory or
-- below all reports, the text of a file, and the names in a directory, sorted.
pub record RunDir : Type 0 where
  pub exists : Text → Bool
  pub is_dir : Text → Bool
  pub inside : Text → Bool
  pub inside_reports : Text → Bool
  pub read_text : Text → Text
  pub names : Text → List Text

-- REPORTS_DIR / str(run_id), if it exists.
abbrev pub Disk : Type 0
Disk = ℕ → Option RunDir

-- What an endpoint returns: a page, a parsed report, a file, or the names of parsed results.
pub data Body : Type 0 where
  page json file : Text → Body
  results : List Text → Body

-- `reports[key] = True`.
abbrev pub note_type : Text → List Text → List Text
note_type key types = if any (text_eq key) types then types else types ++ key ∷ []

abbrev pub note_types : List Text → List Text → List Text
note_types [] types = types
note_types (key ∷ keys) types = note_types keys (note_type key types)

-- `if present: reports[key] = True`, one after the other.
unfoldable pub note_present : List (Bool × Text) → List Text → List Text
note_present [] types = types
note_present ((present, key) ∷ checks) types =
    note_present checks (if present then note_type key types else types)

abbrev pub is_empty {ℓ} : {A : Type ℓ} → List A → Bool
is_empty [] = true
is_empty (x ∷ xs) = false

abbrev pub has_allure : RunDir → Bool
has_allure dir =
    dir.exists (codes "allure-results") && not (is_empty (dir.names (codes "allure-results")))

abbrev pub disk_checks : RunDir → List (Bool × Text)
disk_checks dir =
    (dir.exists (codes "junit.xml"), codes "junit_xml")
    ∷ (dir.exists (codes "report.html"), codes "html")
    ∷ (dir.exists (codes "report.json"), codes "json")
    ∷ (dir.exists (codes "coverage/coverage.json"), codes "coverage")
    ∷ (has_allure dir, codes "allure")
    ∷ (dir.exists (codes "tests/index.json"), codes "per_test")
    ∷ []

unfoldable pub types_on_disk : Option RunDir → List Text → List Text
unfolding note_present
types_on_disk none types = types
types_on_disk (some dir) types = note_present (disk_checks dir) types

-- An entry of "per_file".
pub record FileInfo : Type 0 where
  pub key : Text
  pub junit_xml : Bool
  pub summary : Bool

abbrev pub file_info : RunDir → Text → FileInfo
file_info dir name = record {
  key = name;
  junit_xml = dir.exists (codes "files/" ++ name ++ codes "/junit.xml");
  summary = dir.exists (codes "files/" ++ name ++ codes "/summary.json");
}

abbrev pub per_file : Option RunDir → List FileInfo
per_file none = []
per_file (some dir) =
    if dir.exists (codes "files")
    then map (file_info dir)
        (select (λ name. dir.is_dir (codes "files/" ++ name)) (dir.names (codes "files")))
    else []

pub record Available : Type 0 where
  pub types : List Text
  pub files : List FileInfo

abbrev pub stored_types : ℕ → Db → List Text
stored_types run_id db =
    map (λ (r : ReportData). r.report_type)
      (select (λ (r : ReportData). r.run_id == run_id) db.reports)

unfoldable pub list_reports : Disk → ℕ → Option Text → Db → Result Available
unfolding verify_run_owner types_on_disk
list_reports disk run_id client_key db = do
  run ← verify_run_owner run_id client_key db
  ok (record {
    types = types_on_disk (disk run_id) (note_types (stored_types run_id db) []);
    files = per_file (disk run_id);
  })

-- `file_map`.
unfoldable pub file_name : Text → Option Text
file_name report_type =
    if text_eq report_type (codes "junit_xml")
    then some (codes "junit.xml")
    else (if text_eq report_type (codes "html")
        then some (codes "report.html")
        else (if text_eq report_type (codes "json")
            then some (codes "report.json")
            else (if text_eq report_type (codes "coverage")
                then some (codes "coverage/coverage.json")
                else none)))

-- The types that are looked up in the database.
abbrev pub is_generated : Text → Bool
is_generated report_type =
    text_eq report_type (codes "html")
    || text_eq report_type (codes "json")
    || text_eq report_type (codes "coverage")
    || text_eq report_type (codes "allure")

abbrev pub stored_report : Text → ℕ → Db → Option ReportData
stored_report report_type run_id db =
    if is_generated report_type
    then first (
        select (λ (r : ReportData). r.run_id == run_id && text_eq r.report_type report_type)
          db.reports)
    else none

module _ (is_json : Text → Bool) where
  abbrev pub load : Text → Result Body
  load content = do require (is_json content) internal; ok (json content)

  -- A report by its type: a page, a parsed report, or the file itself.
  unfoldable pub serve : Text → Text → Result Body
  serve report_type content =
      if text_eq report_type (codes "html")
      then ok (page content)
      else (if text_eq report_type (codes "json") then load content else ok (file content))

  unfoldable pub stored_body : Text → ReportData → Result Body
  stored_body report_type r =
      if text_eq report_type (codes "html") then ok (page r.content) else load r.content

  -- The results of allure that parse, by what `is_json` says of them.
  unfoldable pub allure_body : (Text → Bool) → RunDir → Result Body
  allure_body is_json_name dir = do
    require (dir.exists (codes "allure-results")) not_found
    ok (
        results (
          select
            (λ name. is_json_name name && is_json (dir.read_text (codes "allure-results/" ++ name)))
            (dir.names (codes "allure-results"))))

  unfoldable pub file_body : Text → RunDir → Result Body
  unfolding file_name serve
  file_body report_type dir = do
    name ← or_raise (file_name report_type) bad_request
    require (dir.inside name) bad_request
    require (dir.exists name) not_found
    serve report_type (dir.read_text name)

  -- `is_json_name` is `suffix == ".json"`.
  unfoldable pub get_report : (Text → Bool) → Disk → ℕ → Text → Option Text → Db → Result Body
  unfolding verify_run_owner stored_body allure_body file_body
  get_report is_json_name disk run_id report_type client_key db = do
    run ← verify_run_owner run_id client_key db
    elim (stored_report report_type run_id db) [
      | some r ↦ stored_body report_type r
      | none ↦ or_raise (disk run_id) not_found >>= λ dir.
          if text_eq report_type (codes "allure")
          then allure_body is_json_name dir
          else file_body report_type dir
    ]

-- The report as an attachment: only from the disk.
unfoldable pub download_single_report : Disk → ℕ → Text → Option Text → Db → Result Body
unfolding verify_run_owner file_name
download_single_report disk run_id report_type client_key db = do
  run ← verify_run_owner run_id client_key db
  dir ← or_raise (disk run_id) not_found
  name ← or_raise (file_name report_type) bad_request
  require (dir.inside_reports name) bad_request
  require (dir.exists name) not_found
  ok (file (dir.read_text name))
