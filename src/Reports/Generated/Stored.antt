-- ===== src/Reports/Generated/Stored.antt =====
-- What is stored of the generated reports, and what get_report makes of it.
use mathlib.Core.List.{append-nil}
use distributed_verification.Prelude.{
  ℕ, ◌≤◌, ◌≡◌, refl, sym, ap, ◌∙◌, inl, inr, arith, true, false, ◌&&◌, Option, none, some, List, [],
  ◌∷◌, ◌++◌, Text, codes, text_eq, text_eq_iff, text_eq_refl, ◌==◌, ==_iff, ==_refl, if◌then◌else◌,
  first, select, count, count-select, length, Bool-cases,
}
use distributed_verification.Model.{ReportData}
use distributed_verification.Reports.Generated.{is_report, put_report, store_reports, given_report}

-- No run has two reports of one type.
abbrev pub ReportsDiffer : List ReportData → Type 0
ReportsDiffer rows = (run_id : ℕ) (t : Text) → count (is_report run_id t) rows ≤ 1

is_report-same :
    (i j : ℕ) (s t : Text) (r : ReportData)
    → is_report i s r ≡ true
    → is_report j t r ≡ (i == j && text_eq s t)
is_report-same i j s t r h =
    ground (arith, text_eq_iff r.report_type s, text_eq_iff r.report_type t, text_eq_iff s t)

-- A report that is put changes the row of its type, or adds one, and leaves the other types.
count-put_report :
    (i : ℕ) (s content : Text) (rows : List ReportData)
    → count (is_report i s) rows ≤ 1
    → count (is_report i s) (put_report i s content rows) ≤ 1
unfolding put_report
count-put_report i s content [] h = rw (==_refl i, text_eq_refl s) (omega arith)
count-put_report i s content (r ∷ rows) h = elim (Bool-cases (is_report i s r)) [
  | inl e ↦ rw e (rw e (rw e at h))
  | inr e ↦ rw e (rw e (count-put_report i s content rows (rw e at h)))
]

other_row :
    (i j : ℕ) (s t : Text) (r : ReportData)
    → (i == j && text_eq s t) ≡ false
    → is_report i s r ≡ true
    → is_report j t r ≡ false
other_row i j s t r h e = is_report-same i j s t r e ∙ h

module _ (i j : ℕ) (s t content : Text) (off : (i == j && text_eq s t) ≡ false) where
  select-put_other :
      (rows : List ReportData)
      → select (is_report j t) (put_report i s content rows) ≡ select (is_report j t) rows
  unfolding put_report
  select-put_other [] = rw off refl
  select-put_other (r ∷ rows) = elim (Bool-cases (is_report i s r)) [
    | inl e ↦ rw e (rw (other_row i j s t r off e) refl)
    | inr e ↦ rw e (ground (arith, select-put_other rows))
  ]

-- The text of the first row of a type.
abbrev pub text_of_row : Option ReportData → Option Text
text_of_row none = none
text_of_row (some r) = some r.content

abbrev pub stored_text : ℕ → Text → List ReportData → Option Text
stored_text j t rows = text_of_row (first (select (is_report j t) rows))

stored_text-put_same :
    (i : ℕ) (s content : Text) (rows : List ReportData)
    → stored_text i s (put_report i s content rows) ≡ some content
unfolding put_report
stored_text-put_same i s content [] = rw (==_refl i, text_eq_refl s) refl
stored_text-put_same i s content (r ∷ rows) = elim (Bool-cases (is_report i s r)) [
  | inl e ↦ rw e (rw e refl)
  | inr e ↦ rw e (rw e (stored_text-put_same i s content rows))
]

-- The last of the reports of a type, or what was there.
abbrev pub last_text : Text → List (Text × Text) → Option Text → Option Text
last_text t [] old = old
last_text t ((s, content) ∷ reports) old =
    last_text t reports (if text_eq s t then some content else old)

stored_text-put :
    (i : ℕ) (s t content : Text) (rows : List ReportData)
    → stored_text i t (put_report i s content rows)
      ≡ (if text_eq s t then some content else stored_text i t rows)
stored_text-put i s t content rows = elim (Bool-cases (text_eq s t)) [
  | inl e ↦ rw e (
      ap (λ u. stored_text i u (put_report i s content rows)) (sym ((text_eq_iff s t).0 e))
      ∙ stored_text-put_same i s content rows)
  | inr e ↦ rw e (
      ap (λ found. text_of_row (first found))
        (select-put_other i i s t content (rw (==_refl i) e) rows))
]

pub stored_text-store :
    (i : ℕ) (t : Text) (reports : List (Text × Text)) (rows : List ReportData)
    → stored_text i t (store_reports i reports rows) ≡ last_text t reports (stored_text i t rows)
unfolding store_reports
stored_text-store i t [] rows = refl
stored_text-store i t ((s, content) ∷ reports) rows =
    stored_text-store i t reports (put_report i s content rows)
    ∙ ap (last_text t reports) (stored_text-put i s t content rows)

put_report-ReportsDiffer :
    (i : ℕ) (s content : Text) (rows : List ReportData)
    → ReportsDiffer rows
    → ReportsDiffer (put_report i s content rows)
put_report-ReportsDiffer i s content rows h j t = elim (Bool-cases (i == j && text_eq s t)) [
  | inl e ↦
      let runs : i ≡ j = (==_iff i j).0 (ground arith) in
      let types : s ≡ t = (text_eq_iff s t).0 (ground arith) in
      ap_le (λ k. count (is_report k t) (put_report i s content rows)) runs
        (ap_le (λ u. count (is_report i u) (put_report i s content rows)) types
          (count-put_report i s content rows (h i s)))
  | inr e ↦ omega (
    arith,
    h j t,
    count-select (is_report j t) rows,
    count-select (is_report j t) (put_report i s content rows),
    ap (λ found. length found) (select-put_other i j s t content e rows),
  )
]
  where
    ap_le : {A : Type 0} {x y : A} (f : A → ℕ) → x ≡ y → f x ≤ 1 → f y ≤ 1
    ap_le f k le = rw (← k) le

pub store_reports-ReportsDiffer :
    (i : ℕ) (reports : List (Text × Text)) (rows : List ReportData)
    → ReportsDiffer rows
    → ReportsDiffer (store_reports i reports rows)
unfolding store_reports
store_reports-ReportsDiffer i [] rows h = h
store_reports-ReportsDiffer i ((s, content) ∷ reports) rows h =
    store_reports-ReportsDiffer i reports _ (put_report-ReportsDiffer i s content rows h)

-- A type among two optional reports of other types.
pub last_text-given :
    (t s : Text) (report : Option Text) (rest : List (Text × Text)) (old : Option Text)
    → text_eq s t ≡ false
    → last_text t (given_report s report ++ rest) old ≡ last_text t rest old
last_text-given t s none rest old e = refl
last_text-given t s (some []) rest old e = refl
last_text-given t s (some (c ∷ text)) rest old e = rw e refl

-- Behind the first two reports stand those that were read from the disk.
pub last_text-both :
    (t : Text) (coverage allure : Option Text) (old : Option Text)
    → text_eq (codes "coverage") t ≡ false
    → text_eq (codes "allure") t ≡ false
    → last_text t
        (given_report (codes "coverage") coverage ++ given_report (codes "allure") allure)
        old
      ≡ old
last_text-both t coverage allure old c a =
    last_text-given t (codes "coverage") coverage (given_report (codes "allure") allure) old c
    ∙ ap (λ reports. last_text t reports old)
        (sym (append-nil (given_report (codes "allure") allure)))
    ∙ last_text-given t (codes "allure") allure [] old a
