-- ===== src/Reports/Endpoints/Listed.antt =====
-- What list_reports lists, get_report returns.
use distributed_verification.Prelude.{
  ℕ, ◌≡◌, refl, ap, ◌∙◌, ◌⊎◌, inl, inr, ◌≢◌, sym, count, arith, Bool, true, false, ◌&&◌, ◌||◌,
  Option, none, some, List, [], ◌∷◌, ◌++◌, map, Text, codes, text_eq, text_eq_iff, ◌==◌,
  if◌then◌else◌, any, first, select, Bool-cases, Option-cases,
}
use distributed_verification.Model.{ReportData, Db}
use distributed_verification.Access.{
  internal, not_found, >>=-eq-ok, Result, raise, ok, ◌>>=◌, or_raise, verify_run_owner,
}
use distributed_verification.Reports.Endpoints.{
  RunDir, Disk, Available, note_type, note_types, note_present, disk_checks, types_on_disk,
  stored_types, list_reports, file_name, is_generated, stored_report, load, serve, stored_body,
  Body, page, json, file, results, allure_body, file_body, get_report,
}

any-append :
    (t : Text) (xs : List Text) (k : Text)
    → any (text_eq t) (xs ++ k ∷ []) ≡ (any (text_eq t) xs || text_eq t k)
any-append t [] k = ground arith
any-append t (x ∷ xs) k = ground (arith, any-append t xs k)

any-text_eq :
    (t k : Text) (types : List Text)
    → text_eq t k ≡ true
    → any (text_eq k) types ≡ true
    → any (text_eq t) types ≡ true
any-text_eq t k types e h = let same : t ≡ k = (text_eq_iff t k).0 e in rw same h

-- Noting a type adds that type and no other.
any-note_type :
    (t k : Text) (types : List Text)
    → any (text_eq t) (note_type k types) ≡ (text_eq t k || any (text_eq t) types)
any-note_type t k types = elim (Bool-cases (any (text_eq k) types)) [
  | inl e ↦ rw e (ground (arith, any-text_eq t k types))
  | inr e ↦ rw e (ground (arith, any-append t types k))
]

abbrev shown_by : Text → Bool × Text → Bool
shown_by t check = check.0 && text_eq t check.1

any-note_present :
    (t : Text) (checks : List (Bool × Text)) (types : List Text)
    → any (text_eq t) (note_present checks types)
      ≡ (any (text_eq t) types || any (shown_by t) checks)
unfolding note_present
any-note_present t [] types = ground arith
any-note_present t ((true, key) ∷ checks) types =
    any-note_present t checks (note_type key types) ∙ ground (arith, any-note_type t key types)
any-note_present t ((false, key) ∷ checks) types = any-note_present t checks types

any-note_types :
    (t : Text) (keys types : List Text)
    → any (text_eq t) (note_types keys types) ≡ (any (text_eq t) keys || any (text_eq t) types)
any-note_types t [] types = refl
any-note_types t (key ∷ keys) types =
    ground (arith, any-note_types t keys (note_type key types), any-note_type t key types)

-- A type without a row is not among the stored types.
stored_types-none :
    (t : Text) (run_id : ℕ) (rows : List ReportData)
    → first (select (λ (r : ReportData). r.run_id == run_id && text_eq r.report_type t) rows) ≡ none
    → any (text_eq t) (
        map
          (λ (r : ReportData). r.report_type)
          (select (λ (r : ReportData). r.run_id == run_id) rows))
      ≡ false
stored_types-none t run_id [] h = refl
stored_types-none t run_id (r ∷ rows) h = ground (
  arith,
  stored_types-none t run_id rows,
  text_eq_iff r.report_type t,
  text_eq_iff t r.report_type,
)

-- A type of ReportGenerator is one of four.
generated-cases :
    (t : Text)
    → is_generated t ≡ true
    → (t ≡ codes "html") ⊎ (t ≡ codes "json") ⊎ (t ≡ codes "coverage") ⊎ (t ≡ codes "allure")
generated-cases t h = ground (
  arith,
  text_eq_iff t (codes "html"),
  text_eq_iff t (codes "json"),
  text_eq_iff t (codes "coverage"),
  text_eq_iff t (codes "allure"),
)

types_in : Result Available → List Text
types_in (raise e) = []
types_in (ok available) = available.types

module _ (is_json is_json_name : Text → Bool) where
  -- What becomes of the text of a report in the table: a page as it is, and other reports parsed.
  pub data ShowsRow (content : Text) : Text → Result Body → Type 0 where
    row_page : ShowsRow content (codes "html") (ok (page content))
    row_json :
        {t : Text}
        → t ≢ codes "html"
        → is_json content ≡ true
        → ShowsRow content t (ok (json content))
    row_bad :
        {t : Text}
        → t ≢ codes "html"
        → is_json content ≡ false
        → ShowsRow content t (raise internal)

  -- What becomes of a report on the disk, by its type.
  pub data ShowsFile (dir : RunDir) : Text → Result Body → Type 0 where
    file_page : ShowsFile dir (codes "html") (ok (page (dir.read_text (codes "report.html"))))
    file_json :
        is_json (dir.read_text (codes "report.json")) ≡ true
        → ShowsFile dir (codes "json") (ok (json (dir.read_text (codes "report.json"))))
    file_bad :
        is_json (dir.read_text (codes "report.json")) ≡ false
        → ShowsFile dir (codes "json") (raise internal)
    file_coverage :
        ShowsFile dir
          (codes "coverage")
          (ok (file (dir.read_text (codes "coverage/coverage.json"))))
    file_allure :
        (names : List Text)
        → ((n : Text)
            → count (text_eq n) names ≡ (
                if is_json_name n && is_json (dir.read_text (codes "allure-results/" ++ n))
                then count (text_eq n) (dir.names (codes "allure-results"))
                else 0))
        → ShowsFile dir (codes "allure") (ok (results names))

  load-ShowsRow : (t content : Text) → t ≢ codes "html" → ShowsRow content t (load is_json content)
  load-ShowsRow t content other = elim (Bool-cases (is_json content)) [
    | inl k ↦ rw k (row_json other k)
    | inr k ↦ rw k (row_bad other k)
  ]

  stored_body-ShowsRow :
      (t : Text) (r : ReportData) → ShowsRow r.content t (stored_body is_json t r)
  unfolding stored_body
  stored_body-ShowsRow t r = elim (Bool-cases (text_eq t (codes "html"))) [
    | inl k ↦ let same : t ≡ codes "html" = (text_eq_iff t (codes "html")).0 k in rw same row_page
    | inr k ↦
        rw k
          (load-ShowsRow t r.content (λ e. not_same (sym ((text_eq_iff t (codes "html")).1 e) ∙ k)))
  ]
    where
      not_same : true ≡ false → ⊥
      not_same e = cc

  load-ShowsFile :
      (dir : RunDir)
      → ShowsFile dir (codes "json") (load is_json (dir.read_text (codes "report.json")))
  load-ShowsFile dir = elim (Bool-cases (is_json (dir.read_text (codes "report.json")))) [
    | inl k ↦ rw k (file_json k)
    | inr k ↦ rw k (file_bad k)
  ]

  -- Names are selected as often as they stand in the list.
  count-select_name :
      (p : Text → Bool) (n : Text) (names : List Text)
      → count (text_eq n) (select p names) ≡ (if p n then count (text_eq n) names else 0)
  count-select_name p n [] = ground arith
  count-select_name p n (m ∷ names) = elim (Bool-cases (text_eq n m)) [
    | inl e ↦
        let same : n ≡ m = (text_eq_iff n m).0 e in
        let here : p n ≡ p m = ap p same in ground (arith, count-select_name p n names)
    | inr e ↦ ground (arith, count-select_name p n names)
  ]

  -- What get_report does with the directory.
  abbrev from_dir : Text → RunDir → Result Body
  from_dir t dir =
      if text_eq t (codes "allure")
      then allure_body is_json is_json_name dir
      else file_body is_json t dir

  from_dir-ShowsFile :
      (t : Text) (dir : RunDir)
      → is_generated t ≡ true
      → any (shown_by t) (disk_checks dir) ≡ true
      → ((name : Text) → file_name t ≡ some name → dir.inside name ≡ true)
      → ShowsFile dir t (from_dir t dir)
  unfolding file_name allure_body file_body serve
  from_dir-ShowsFile t dir g shown inside = elim (generated-cases t g) [
    | inl a ↦
        let there : dir.exists (codes "report.html") ≡ true = ground (arith, rw a at shown) in
        let below = inside (codes "report.html") (rw a refl) in rw a (rw (there, below) file_page)
    | inr (inl a) ↦
        let there : dir.exists (codes "report.json") ≡ true = ground (arith, rw a at shown) in
        let below = inside (codes "report.json") (rw a refl) in
        rw a (rw (there, below) (load-ShowsFile dir))
    | inr (inr (inl a)) ↦
        let there : dir.exists (codes "coverage/coverage.json") ≡ true =
          ground (arith, rw a at shown) in
        let below = inside (codes "coverage/coverage.json") (rw a refl) in
        rw a (rw (there, below) file_coverage)
    | inr (inr (inr a)) ↦
        let there : dir.exists (codes "allure-results") ≡ true = ground (arith, rw a at shown) in
        rw a (
          rw there (
            file_allure _ (λ n.
              count-select_name
                (λ name.
                  is_json_name name && is_json (dir.read_text (codes "allure-results/" ++ name)))
                n (dir.names (codes "allure-results")))))
  ]

  found_body-ShowsFile :
      (t : Text) (found : Option RunDir) (types : List Text)
      → is_generated t ≡ true
      → any (text_eq t) types ≡ false
      → any (text_eq t) (types_on_disk found types) ≡ true
      → ((dir : RunDir) (name : Text)
          → found ≡ some dir
          → file_name t ≡ some name
          → dir.inside name ≡ true)
      → (dir : RunDir) × (found ≡ some dir)
        × ShowsFile dir t (or_raise found not_found >>= from_dir t)
  unfolding types_on_disk
  found_body-ShowsFile t none types g off shown inside = cc
  found_body-ShowsFile t (some dir) types g off shown inside = (
    dir,
    refl,
    from_dir-ShowsFile t dir g (ground (arith, any-note_present t (disk_checks dir) types))
        (λ name. inside dir name refl),
  )

  -- If list_reports returns and lists one of the four types that are generated, get_report of that
  -- type shows it: the row of the table, a page as it is and other types parsed, or, without a row,
  -- the report of that type in the directory: the page, the parsed JSON report, the file of the
  -- coverage, or those results of allure that are JSON files and can be parsed. A row or a JSON report
  -- that cannot be parsed is an internal error. A file of the directory must resolve to a place below
  -- it.
  pub list_reports-get_report :
      (disk : Disk) (run_id : ℕ) (t : Text) (client_key : Option Text) (db : Db)
      (available : Available)
      → list_reports disk run_id client_key db ≡ ok available
      → is_generated t ≡ true
      → any (text_eq t) available.types ≡ true
      → ((dir : RunDir) (name : Text)
          → disk run_id ≡ some dir
          → file_name t ≡ some name
          → dir.inside name ≡ true)
      → let answer = get_report is_json is_json_name disk run_id t client_key db in
        let rows =
          select (λ (r : ReportData). r.run_id == run_id && text_eq r.report_type t) db.reports in
        ((r : ReportData) × (first rows ≡ some r) × ShowsRow r.content t answer)
        ⊎ ((first rows ≡ none) × (dir : RunDir) × (disk run_id ≡ some dir) × ShowsFile dir t answer)
  unfolding list_reports get_report types_in
  list_reports-get_report disk run_id t client_key db available listed g among inside =
      let (run, owner, same) = >>=-eq-ok (verify_run_owner run_id client_key db) _ listed in
      let types = ap types_in same in
      let rows =
        select (λ (r : ReportData). r.run_id == run_id && text_eq r.report_type t) db.reports in
      let stored : stored_report t run_id db ≡ first rows = rw g refl in
      rw owner (elim (Option-cases (first rows)) [
        | inr (r, e) ↦ rw (stored ∙ e) (inl (r, e, stored_body-ShowsRow t r))
        | inl e ↦
            let (dir, found, shown) =
              found_body-ShowsFile t (disk run_id) _ g
                (any-note_types t (stored_types run_id db) []
                  ∙ ground (arith, stored_types-none t run_id db.reports))
                (rw (← types) at among) inside in
            rw (stored ∙ e) (inr (e, dir, found, shown))
      ])
