-- ===== src/Tests/EndpointTests.antt =====
-- The theorems on the endpoints of reports, on tokens and on registration at small inputs.
use distributed_verification.Prelude.{
  ◌⊎◌, ◌&&◌, ◌==◌, first, select, ℕ, ◌+◌, ◌≤◌, ◌<◌, ◌≡◌, refl, ap, sym, zero, suc, arith, Bool,
  true, false, Option, none, some, List, [], ◌∷◌, map, Text, codes, text_eq, leb, if◌then◌else◌,
  length,
}
use distributed_verification.Model.{ReportData, RunStatus, Run, LogEntry, CustomSuite}
use distributed_verification.Access.{internal, unauthorized, raise, ok, verify_run_owner}
use distributed_verification.Login.{login}
use distributed_verification.Login.Tokens.{
  Claims, get_current_client, login_token, JwtLaws, get_current_client-login,
}
use distributed_verification.Clients.{ClientCreate, Drawn, register_client}
use distributed_verification.Reports.{Element, node, nil, cons, CaseStatus, make_case, count_cases}
use distributed_verification.Reports.Generated.{JunitData, OnDisk, junit_stats}
use distributed_verification.Reports.Generated.Cases.{junit_stats-count_cases}
use distributed_verification.Reports.Generated.Served.{
  generated, generate_all_reports-get_report, generate_all_reports_allure,
}
use distributed_verification.Reports.Endpoints.{RunDir, page, load, list_reports, get_report}
use distributed_verification.Reports.Endpoints.Listed.{ShowsRow, ShowsFile, list_reports-get_report}
use distributed_verification.Reports.Endpoints.Results.{TestIndex, suite_folders}
use distributed_verification.Tests.Samples.{ann, make_run, contended, stale_holder}

-- The text of a token: its end, whether it has a subject, and the subject.
abbrev encode : Claims → Text
encode c = c.exp ∷ elim c.sub [ none ↦ 0 ∷ [] | some key ↦ 1 ∷ key ]

abbrev claims_in : ℕ → Text → Option Claims
claims_in exp [] = none
claims_in exp (zero ∷ key) = some (record { sub = none; exp = exp })
claims_in exp (suc flag ∷ key) = some (record { sub = some key; exp = exp })

abbrev decode : ℕ → Text → Option Claims
decode t [] = none
decode t (exp ∷ text) = if leb t exp then claims_in exp text else none

decode-encode :
    (t exp : ℕ) (sub : Option Text)
    → t ≤ exp
    → decode t (encode (record { sub = sub; exp = exp })) ≡ some (record { sub = sub; exp = exp })
decode-encode t exp none h = ground arith
decode-encode t exp (some key) h = ground arith

decode-eq-none :
    (t exp : ℕ) (sub : Option Text)
    → exp < t
    → decode t (encode (record { sub = sub; exp = exp })) ≡ none
decode-eq-none t exp none h = ground arith
decode-eq-none t exp (some key) h = ground arith

token_laws : JwtLaws encode decode
token_laws = record {
  valid = λ t c h. decode-encode t c.exp c.sub h;
  expired = λ t c h. decode-eq-none t c.exp c.sub h;
}

abbrev plain_check : Text → Text → Bool
plain_check password secret = text_eq password secret

abbrev no_page : Run → List LogEntry → JunitData → Text
no_page run logs junit = codes "{}"

abbrev own_key : Option Text
own_key = some (codes "k1")

abbrev is_object : Text → Bool
is_object t = text_eq t (codes "{}")

abbrev finished_run : Run
finished_run = make_run 1 RunStatus.completed (some 1)

abbrev shown_page : OnDisk
shown_page = record {
  junit = record { main = none; all = none; files = [] };
  coverage = none;
  allure = some (codes "<html>");
}

generate_all_reports-get_report_example :
    (get_report is_object is_object
        (λ n. none)
        1
        (codes "html")
        own_key
        (generated no_page no_page 1 shown_page stale_holder)
      ≡ ok (page (codes "{}")))
    × (get_report is_object is_object
          (λ n. none)
          1
          (codes "json")
          own_key
          (generated no_page no_page 1 shown_page stale_holder)
        ≡ load is_object (codes "{}"))
unfolding verify_run_owner
generate_all_reports-get_report_example =
    generate_all_reports-get_report no_page no_page is_object is_object (λ n. none) shown_page 1
      own_key stale_holder finished_run refl refl refl

generate_all_reports_allure_example :
    get_report is_object is_object
      (λ n. none)
      1
      (codes "allure")
      own_key
      (generated no_page no_page 1 shown_page stale_holder)
    ≡ raise internal
unfolding verify_run_owner
generate_all_reports_allure_example =
    generate_all_reports_allure no_page no_page is_object is_object (λ n. none) shown_page 1 own_key
      stale_holder finished_run b'<' (codes "html>") refl refl refl refl refl

-- A directory with one page.
abbrev page_dir : RunDir
page_dir = record {
  exists = λ path. text_eq path (codes "report.html");
  is_dir = λ path. false;
  inside = λ path. true;
  inside_reports = λ path. true;
  read_text = λ path. codes "<html>";
  names = λ path. [];
}

abbrev in_found : Text → Option RunDir → Bool
in_found name none = true
in_found name (some dir) = dir.inside name

list_reports-get_report_example :
    let answer =
      get_report is_object is_object (λ n. some page_dir) 1 (codes "html") own_key contended in
    let rows =
      select
        (λ (r : ReportData). r.run_id == 1 && text_eq r.report_type (codes "html"))
        contended.reports in
    ((r : ReportData) × (first rows ≡ some r)
      × ShowsRow is_object is_object r.content (codes "html") answer)
    ⊎ ((first rows ≡ none)
        × (dir : RunDir) × (some page_dir ≡ some dir)
        × ShowsFile is_object is_object dir (codes "html") answer)
unfolding list_reports
list_reports-get_report_example =
    list_reports-get_report is_object is_object (λ n. some page_dir) 1 (codes "html") own_key
      contended (record { types = codes "html" ∷ []; files = [] }) refl refl refl
      (λ dir name there named. ap (in_found name) (sym there))

get_current_client-login_example :
    (150 ≤ 1_000 → get_current_client decode 150 (login_token encode 100 ann) contended ≡ ok ann)
    × (1_000 < 150
        → get_current_client decode 150 (login_token encode 100 ann) contended ≡ raise unauthorized)
unfolding login
get_current_client-login_example =
    get_current_client-login encode decode plain_check 100 150 (codes "k1") (codes "s") contended []
      [] ann token_laws refl

-- Letters in upper case, lowered.
abbrev lower : Text → Text
lower = map (λ c. if leb b'A' c then (if leb c b'Z' then c + 32 else c) else c)

abbrev same_text : Text → Text
same_text t = t

abbrev drawn : Drawn
drawn = record { client_key = codes "k2"; secret = codes "hash" }

abbrev asks : Text → ClientCreate
asks name = record { name = name; email = none; webhook_url = none }

-- A client of another name who is registered under the name of ann gets her key.
takes_key :
    (register_client same_text lower lower drawn (asks (codes "ann")) contended).0.client_key
    ≡ codes "k1"
unfolding register_client
takes_key = refl

abbrev skipped_case : Element
skipped_case =
    node (codes "testcase") ((codes "name", codes "t3") ∷ []) none
      (cons (node (codes "skipped") [] none nil) nil)

junit_stats-count_cases_example :
    let tcs = skipped_case ∷ [] in
    ((junit_stats tcs).total ≡ length tcs)
    × ((junit_stats tcs).failed ≡ count_cases CaseStatus.failed (map make_case tcs))
    × ((junit_stats tcs).errors ≡ count_cases CaseStatus.error (map make_case tcs))
    × ((junit_stats tcs).passed
        ≡ count_cases CaseStatus.passed (map make_case tcs)
          + count_cases CaseStatus.skipped (map make_case tcs))
junit_stats-count_cases_example = junit_stats-count_cases (skipped_case ∷ [])

abbrev nightly : CustomSuite
nightly = record {
  id = 7;
  name = codes "nightly";
  description = [];
  tests = [];
  tags = [];
  created_at = 0;
}

-- Two tests of one name: the suite's test of the second file is given the result of the first.
abbrev two_files : TestIndex
two_files = (codes "a::test_x", codes "folder_a") ∷ (codes "b::test_x", codes "folder_b") ∷ []

same_name : suite_folders (codes "b.py::test_x" ∷ []) two_files ≡ codes "folder_a" ∷ []
unfolding suite_folders
same_name = refl
