-- ===== src/Discovery/Names.antt =====
-- What the discovered tests are called.
use distributed_verification.Prelude.{
  ℕ, ◌≡◌, refl, ap, ◌∙◌, ◌⊎◌, inl, inr, arith, Bool, true, false, Option, none, some, List, [], ◌∷◌,
  ◌++◌, map, Text, codes, sym, all, All, All-append, Option-cases, if◌then◌else◌,
}
use mathlib.Core.List.{append_assoc}
use distributed_verification.Access.{given_key}
use distributed_verification.Runner.CliCapture.{skip_spaces}
use distributed_verification.Discovery.{
  SourceFile, TestItem, plain_nodeid, class_nodeid, class_after, nodeid_for, scan_line, scan_lines,
  discover_nodeids_from_file, behind_last, function_of, test_items, discover_tests, ends_class,
}
use distributed_verification.Discovery.Lines.{
  is_name_char, without, name_chars, named, name_after, is_indented, behind_blanks, keyword_match,
  class_match, func_match,
}

-- A text of the shape `start[A-Za-z0-9_]+`, where `start` has this shape too.
abbrev pub IsNamed : Text → Text → Type 0
IsNamed start name =
    (c : ℕ) × (rest : Text) × (name ≡ start ++ c ∷ rest) × (all is_name_char name ≡ true)

all-append :
    (s t : Text)
    → all is_name_char s ≡ true
    → all is_name_char t ≡ true
    → all is_name_char (s ++ t) ≡ true
all-append [] t h k = k
all-append (c ∷ s) t h k = ground (arith, all-append s t)

all-name_chars : (t : Text) → all is_name_char (name_chars t) ≡ true
unfolding name_chars
all-name_chars [] = refl
all-name_chars (c ∷ t) = ground (arith, all-name_chars t)

named-IsNamed :
    (start chars : Text) {name : Text}
    → all is_name_char start ≡ true
    → all is_name_char chars ≡ true
    → named start chars ≡ some name
    → IsNamed start name
named-IsNamed start [] s h e = cc
named-IsNamed start (c ∷ chars) {name} s h e =
    let same : start ++ c ∷ chars ≡ name = cc in
    (c, chars, sym same, rw (← same) (all-append start (c ∷ chars) s h))

name_after-IsNamed :
    (start : Text) (rest : Option Text) {name : Text}
    → all is_name_char start ≡ true
    → name_after start rest ≡ some name
    → IsNamed start name
unfolding name_after
name_after-IsNamed start none s e = cc
name_after-IsNamed start (some t) s e = named-IsNamed start (name_chars t) s (all-name_chars t) e

module _ (is_space : ℕ → Bool) where
  keyword_match-IsNamed :
      (keyword start t : Text) {name : Text}
      → all is_name_char start ≡ true
      → keyword_match is_space keyword start t ≡ some name
      → IsNamed start name
  unfolding keyword_match
  keyword_match-IsNamed keyword start t s e = go (behind_blanks is_space (without keyword t)) e
    where
      go :
          (behind : Option Text) {name : Text}
          → elim behind [ none ↦ none | some rest ↦ name_after start (without start rest) ]
            ≡ some name
          → IsNamed start name
      go none e = cc
      go (some rest) e = name_after-IsNamed start (without start rest) s e

  pub class_match-IsNamed :
      (line : Text) {name : Text}
      → class_match is_space line ≡ some name
      → IsNamed (codes "Test") name
  unfolding class_match
  class_match-IsNamed line e = keyword_match-IsNamed (codes "class") (codes "Test") line refl e

  pub func_match-IsNamed :
      (line : Text) {name : Text}
      → func_match is_space line ≡ some name
      → IsNamed (codes "test_") name
  unfolding func_match
  func_match-IsNamed line e =
      keyword_match-IsNamed (codes "def") (codes "test_") (skip_spaces is_space line) refl e

-- The node id of a test function, or of a method of a test class.
abbrev pub IsNodeidOf : Text → Text → Text → Type 0
IsNodeidOf path function nodeid =
    IsNamed (codes "test_") function
    × ((nodeid ≡ plain_nodeid path function)
        ⊎ ((class_name : Text) × IsNamed (codes "Test") class_name
            × (nodeid ≡ class_nodeid path class_name function)))

-- The open class is none, or one that was read.
abbrev pub IsClass : Option Text → Type 0
IsClass none = Unit
IsClass (some class_name) = IsNamed (codes "Test") class_name

abbrev pub IsNodeid : Text → Text → Type 0
IsNodeid path nodeid = (function : Text) × IsNodeidOf path function nodeid

pub nodeid_for-IsNodeid :
    (path : Text) (indented : Bool) (current : Option Text) (function : Text)
    → IsClass current
    → IsNamed (codes "test_") function
    → IsNodeid path (nodeid_for path indented current function)
nodeid_for-IsNodeid path true (some class_name) function c f =
    (function, (f, inr (class_name, c, refl)))
nodeid_for-IsNodeid path true none function c f = (function, (f, inl refl))
nodeid_for-IsNodeid path false current function c f = (function, (f, inl refl))

pub if-IsClass :
    (b : Bool) (current : Option Text) → IsClass current → IsClass (if b then none else current)
if-IsClass true current h = tt
if-IsClass false current h = h

class_after-IsClass :
    (indented : Bool) (current : Option Text)
    → IsClass current
    → IsClass (class_after indented current)
class_after-IsClass true current h = h
class_after-IsClass false current h = tt

module _ (is_space : ℕ → Bool) where
  scan_line-IsNodeid :
      (path : Text) (current : Option Text) (line : Text)
      → IsClass current
      → IsClass (scan_line is_space path current line).0
        × All (IsNodeid path) (scan_line is_space path current line).1
  unfolding scan_line
  scan_line-IsNodeid path current line h = elim (Option-cases (class_match is_space line)) [
    | inr (name, e) ↦ rw e (class_match-IsNamed is_space line e, tt)
    | inl e ↦ elim (Option-cases (func_match is_space line)) [
      | inl f ↦ rw (e, f) (if-IsClass (ends_class is_space line) current h, tt)
      | inr (function, f) ↦
          let reset = if-IsClass (ends_class is_space line) current h in
          rw (e, f)
            (
              class_after-IsClass (is_indented is_space line) _ reset,
              (
                nodeid_for-IsNodeid path (is_indented is_space line) _ function reset
                    (func_match-IsNamed is_space line f),
                tt,
              ),
            )
    ]
  ]

  scan_lines-IsNodeid :
      (path : Text) (current : Option Text) (lines : List Text)
      → IsClass current
      → All (IsNodeid path) (scan_lines is_space path current lines)
  unfolding scan_lines
  scan_lines-IsNodeid path current [] h = tt
  scan_lines-IsNodeid path current (line ∷ lines) h =
      let (next, found) = scan_line-IsNodeid path current line h in
      All-append (IsNodeid path) _ _ found
        (scan_lines-IsNodeid path (scan_line is_space path current line).0 lines next)

-- The last "::" stands before the function's name.
behind_last-eq-none : (t : Text) → all is_name_char t ≡ true → behind_last t ≡ none
unfolding behind_last
behind_last-eq-none [] h = refl
behind_last-eq-none (c ∷ t) h =
    let rest = behind_last-eq-none t (ground arith) in rw rest (ground arith)

behind_last-append :
    (s t : Text) → all is_name_char t ≡ true → behind_last (s ++ (codes "::" ++ t)) ≡ some t
unfolding behind_last
behind_last-append [] [] h = refl
behind_last-append [] (c ∷ t) h = rw (behind_last-eq-none (c ∷ t) h) (ground arith)
behind_last-append (c ∷ s) t h = rw (behind_last-append s t h) refl

function_of-append :
    (s f : Text) → all is_name_char f ≡ true → function_of (s ++ codes "::" ++ f) ≡ f
unfolding function_of
function_of-append s f h =
    rw (append_assoc s (codes "::") f) (rw (function_of, behind_last-append s f h) refl)

-- An item of the list: its function is the test function that its node id names.
abbrev pub IsTestItem : TestItem → Type 0
IsTestItem item = IsNodeidOf item.path item.function item.nodeid

IsTestItem-nodeid :
    (path nodeid : Text)
    → IsNodeid path nodeid
    → IsTestItem (record { nodeid = nodeid; path = path; function = function_of nodeid })
IsTestItem-nodeid path nodeid (function, (f, inl e)) =
    let same : function_of nodeid ≡ function =
      ap function_of e ∙ function_of-append path function f.3 in
    rw same (f, inl e)
IsTestItem-nodeid path nodeid (function, (f, inr (c, h, e))) =
    let same : function_of nodeid ≡ function =
      ap function_of e ∙ function_of-append (path ++ codes "::" ++ c) function f.3 in
    rw same (f, inr (c, h, e))

module _ (is_space : ℕ → Bool) where
  test_items-IsTestItem : (files : List SourceFile) → All IsTestItem (test_items is_space files)
  unfolding test_items discover_nodeids_from_file
  test_items-IsTestItem [] = tt
  test_items-IsTestItem (file ∷ files) =
      All-append IsTestItem _ (test_items is_space files)
        (items file.posix_path _ (scan_lines-IsNodeid is_space file.posix_path none file.lines tt))
        (test_items-IsTestItem files)
    where
      items :
          (path : Text) (nodeids : List Text)
          → All (IsNodeid path) nodeids
          → All IsTestItem (
              map
                (λ nodeid. record { nodeid = nodeid; path = path; function = function_of nodeid })
                nodeids)
      items path [] h = tt
      items path (nodeid ∷ nodeids) h = (IsTestItem-nodeid path nodeid h.0, items path nodeids h.1)

-- Every test that is listed, from the server's files or from the uploads of the key, is a function
-- named test_ and at least one more character, all of letters, digits and underscores; its node id
-- is its path and that function, or its path, a class whose name starts with Test, and that
-- function.
pub discover_tests-IsTestItem :
    (is_space : ℕ → Bool) (files : List SourceFile) (uploads : Text → List SourceFile)
    (client_key : Option Text)
    → All IsTestItem (discover_tests is_space files uploads client_key)
unfolding discover_tests
discover_tests-IsTestItem is_space files uploads client_key =
    All-append IsTestItem (test_items is_space files) _ (test_items-IsTestItem is_space files)
      (elim (given_key client_key)
        as (λ key.
          All IsTestItem (elim key [ none ↦ [] | some k ↦ test_items is_space (uploads k) ])) [
            | none ↦ tt
            | some key ↦ test_items-IsTestItem is_space (uploads key)
          ])
