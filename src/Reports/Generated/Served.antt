-- ===== src/Reports/Generated/Served.antt =====
-- The reports that are generated are the ones that get_report returns.
use distributed_verification.Prelude.{
  ℕ, ◌≡◌, refl, ap, ◌∙◌, inl, inr, Bool, true, false, Bool-cases, Option-cases, Option, none, some,
  List, ◌∷◌, Text, codes, text_eq, ◌==◌, if◌then◌else◌, select, first,
}
use distributed_verification.Model.{Run, LogEntry, ReportData, Db}
use distributed_verification.Queue.{find_run}
use distributed_verification.Access.{internal, raise, ok, verify_run_owner}
use distributed_verification.Reports.Generated.{
  JunitData, read_junit_xml, is_report, store_reports, given_report, OnDisk, is_completed,
  reports_to_store, generate_all_reports,
}
use distributed_verification.Reports.Generated.Stored.{
  ReportsDiffer, text_of_row, stored_text, last_text, stored_text-store,
  store_reports-ReportsDiffer, last_text-given, last_text-both,
}
use distributed_verification.Reports.Endpoints.{
  Disk, page, is_generated, load, stored_body, get_report,
}

row-found :
    (found : Option ReportData) {content : Text}
    → text_of_row found ≡ some content
    → (r : ReportData) × (found ≡ some r) × (r.content ≡ content)
row-found none e = cc
row-found (some r) e = (r, refl, cc)

module _ (html_report json_report : Run → List LogEntry → JunitData → Text) where
  -- The pages that are made for a run.
  abbrev pub html_text : Run → OnDisk → Db → Text
  html_text run disk db =
      html_report run (select (λ (l : LogEntry). l.run_id == run.id) db.logs)
        (read_junit_xml disk.junit)

  abbrev pub json_text : Run → OnDisk → Db → Text
  json_text run disk db =
      json_report run (select (λ (l : LogEntry). l.run_id == run.id) db.logs)
        (read_junit_xml disk.junit)

  abbrev pub generated : ℕ → OnDisk → Db → Db
  generated run_id disk db = (generate_all_reports html_report json_report run_id disk db).1

  -- The database behind the reports of a completed run.
  generated-reports :
      (run_id : ℕ) (disk : OnDisk) (db : Db) (run : Run)
      → find_run run_id db ≡ some run
      → is_completed run ≡ true
      → generated run_id disk db ≡ record db {
        reports =
            store_reports run_id (reports_to_store html_report json_report run disk db) db.reports;
      }
  unfolding generate_all_reports
  generated-reports run_id disk db run found completed =
      rw (generated, generate_all_reports, found) (rw completed refl)

-- A stored text is served, by the branch of its type.
get_report-stored :
    (is_json is_json_name : Text → Bool) (files : Disk) (run_id : ℕ) (t content : Text)
    (client_key : Option Text) (db : Db) (run : Run)
    → verify_run_owner run_id client_key db ≡ ok run
    → is_generated t ≡ true
    → stored_text run_id t db.reports ≡ some content
    → get_report is_json is_json_name files run_id t client_key db
      ≡ (if text_eq t (codes "html") then ok (page content) else load is_json content)
unfolding get_report stored_body
get_report-stored is_json is_json_name files run_id t content client_key db run owner g e =
    let (r, found, same) = row-found (first (select (is_report run_id t) db.reports)) e in
    rw owner (rw g (rw found (rw same refl)))

module _ (html_report json_report : Run → List LogEntry → JunitData → Text) where
  -- Behind the generation for a completed run, its owner gets the page that was made of the run, its
  -- logs and its tests, and the report that was made as JSON, if it is JSON.
  pub generate_all_reports-get_report :
      (is_json is_json_name : Text → Bool) (files : Disk) (disk : OnDisk) (run_id : ℕ)
      (client_key : Option Text) (db : Db) (run : Run)
      → find_run run_id db ≡ some run
      → is_completed run ≡ true
      → verify_run_owner run_id client_key db ≡ ok run
      → let after = generated html_report json_report run_id disk db in
        (get_report is_json is_json_name files run_id (codes "html") client_key after
          ≡ ok (page (html_text html_report json_report run disk db)))
        × (get_report is_json is_json_name files run_id (codes "json") client_key after
            ≡ load is_json (json_text html_report json_report run disk db))
  unfolding verify_run_owner
  generate_all_reports-get_report is_json is_json_name files disk run_id client_key db run found
        completed owner =
      let reports = reports_to_store html_report json_report run disk db in
      let stored : Db = record db { reports = store_reports run_id reports db.reports } in
      let same = generated-reports html_report json_report run_id disk db run found completed in
      rw same (
        get_report-stored is_json is_json_name files run_id (codes "html") _ client_key stored run
            owner refl
            (stored_text-store run_id (codes "html") reports db.reports
              ∙ last_text-both (codes "html") disk.coverage disk.allure _ refl refl),
        get_report-stored is_json is_json_name files run_id (codes "json") _ client_key stored run
            owner refl
            (stored_text-store run_id (codes "json") reports db.reports
              ∙ last_text-both (codes "json") disk.coverage disk.allure _ refl refl),
      )

  -- Behind the generation for a completed run whose allure report, read from the disk as the page
  -- index.html, is no JSON, its owner who asks for the allure report gets an internal error.
  pub generate_all_reports_allure :
      (is_json is_json_name : Text → Bool) (files : Disk) (disk : OnDisk) (run_id : ℕ)
      (client_key : Option Text) (db : Db) (run : Run) (c : ℕ) (content : Text)
      → find_run run_id db ≡ some run
      → is_completed run ≡ true
      → verify_run_owner run_id client_key db ≡ ok run
      → disk.allure ≡ some (c ∷ content)
      → is_json (c ∷ content) ≡ false
      → get_report is_json is_json_name files run_id
          (codes "allure")
          client_key
          (generated html_report json_report run_id disk db)
        ≡ raise internal
  unfolding verify_run_owner
  generate_all_reports_allure is_json is_json_name files disk run_id client_key db run c content
        found completed owner allure bad =
      let reports = reports_to_store html_report json_report run disk db in
      let stored : Db = record db { reports = store_reports run_id reports db.reports } in
      let same = generated-reports html_report json_report run_id disk db run found completed in
      let old = stored_text run_id (codes "allure") db.reports in
      let last =
        stored_text-store run_id (codes "allure") reports db.reports
        ∙ last_text-given (codes "allure") (codes "coverage") disk.coverage
            (given_report (codes "allure") disk.allure) old refl
        ∙ ap (λ a. last_text (codes "allure") (given_report (codes "allure") a) old) allure in
      rw same (
        get_report-stored is_json is_json_name files run_id (codes "allure") (c ∷ content)
          client_key stored run owner refl last
        ∙ rw bad refl)

  -- Whatever was generated, for whatever run, no run has two reports of one type, if none had.
  pub generate_all_reports-ReportsDiffer :
      (disk : OnDisk) (run_id : ℕ) (db : Db)
      → ReportsDiffer db.reports
      → ReportsDiffer (generated html_report json_report run_id disk db).reports
  unfolding generate_all_reports
  generate_all_reports-ReportsDiffer disk run_id db h = elim (Option-cases (find_run run_id db)) [
    | inl e ↦ rw (generated, generate_all_reports, e) h
    | inr (run, e) ↦ elim (Bool-cases (is_completed run)) [
      | inl completed ↦
          rw (generated-reports html_report json_report run_id disk db run e completed) (
            store_reports-ReportsDiffer run_id
              (reports_to_store html_report json_report run disk db) db.reports h)
      | inr other ↦ rw (generated, generate_all_reports, e) (rw other h)
    ]
  ]
