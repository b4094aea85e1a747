-- ===== src/Runner/Lines.antt =====
-- runner.py: what capture_test_run makes of the lines that the processes of a run print. A line
-- becomes a log entry with a level and a source, the test that it belongs to. `str.strip` is a
-- parameter. The set of the node ids is a list in the order in which the set is run through.
pub mod Groups
use mathlib.Core.Option
use distributed_verification.Prelude.{
  ℕ, zero, suc, ◌++◌, Bool, true, false, not, ◌&&◌, ◌||◌, Option, none, some, List, [], ◌∷◌, Text,
  codes, text_eq, starts_with, contains, ◌==◌, if◌then◌else◌, get_or, put, first, select,
}
use distributed_verification.Runs.{truthy_text}

-- What a reader thread puts on the queue: the level of the stream, the line, and the process's tag.
pub record Line : Type 0 where
  pub level : Text
  pub text : Text
  pub tag : Text

-- The level of an entry: in the loop, and of the lines that are drained behind it.
unfoldable pub drained_level : Line → Text
drained_level l =
    if contains (codes "PASSED") l.text
    then codes "PASS"
    else (if contains (codes "FAILED") l.text || contains (codes "ERROR") l.text
        then codes "FAIL"
        else l.level)

unfoldable pub log_level : Line → Text
log_level l =
    if contains (codes "PASSED") l.text
    then codes "PASS"
    else (if contains (codes "FAILED") l.text || contains (codes "ERROR") l.text
        then codes "FAIL"
        else (if starts_with (codes "E ") l.text || contains (codes "AssertionError") l.text
            then codes "FAIL"
            else l.level))

-- ` _+$`: a blank, and underscores to the end.
abbrev pub all_underscores : Text → Bool
all_underscores [] = true
all_underscores (c ∷ t) = c == b'_' && all_underscores t

abbrev pub is_closing : Text → Bool
is_closing [] = false
is_closing (c ∷ []) = false
is_closing (c ∷ d ∷ t) = c == b' ' && all_underscores (d ∷ t)

-- `(.+?) _+$`: the shortest name of at least one character behind which the line closes.
unfoldable pub name_of : Text → Option Text
name_of [] = none
name_of (c ∷ t) =
    let longer = Option.map (λ n. c ∷ n) (name_of t) in
    if is_closing t then some (c ∷ []) else longer

-- `^_+ `, then the name; at least one underscore was read.
unfoldable pub after_bar : Text → Option Text
unfolding name_of
after_bar [] = none
after_bar (c ∷ t) =
    let further = after_bar t in
    if c == b'_' then further else (if c == b' ' then name_of t else none)

-- The regular expression `^_+ (.+?) _+$` of a section header.
unfoldable pub header_name : Text → Option Text
unfolding after_bar
header_name [] = none
header_name (c ∷ t) = if c == b'_' then after_bar t else none

-- `split("::")[-1]`: `part` is the part that is being read, `skip` the characters of a separator
-- that are still to be passed.
unfoldable pub last_part_from : Text → ℕ → Text → Text
last_part_from part skip [] = part
last_part_from part (suc skip) (c ∷ t) = last_part_from part skip t
last_part_from part zero (c ∷ t) =
    let cut = starts_with (codes "::") (c ∷ t) in
    last_part_from (if cut then [] else part ++ c ∷ []) (if cut then 1 else 0) t

-- The short names of the tests, `_func_to_nodeid`: of two tests with one name the later one counts.
unfoldable pub func_to_nodeid : List (Text × Option Text) → List Text → List (Text × Option Text)
unfolding last_part_from put
func_to_nodeid index [] = index
func_to_nodeid index (nid ∷ nids) =
    func_to_nodeid
      (if contains (codes "::") nid then put (last_part_from [] 0 nid) (some nid) index else index)
      nids

-- `current_test_per_group`.
abbrev pub Current : Type 0
Current = List (Text × Option Text)

-- `line.startswith("===") or (line.startswith("---") and " passed" in line)`.
abbrev pub is_separator : Text → Bool
is_separator line =
    starts_with (codes "===") line
    || starts_with (codes "---") line && contains (codes " passed") line

-- Whether the line is of no test: what the code does by `line` and the current test of its group.
unfoldable pub continue_source : Line → Option Text → Current → Text × Current
unfolding put
continue_source l none current =
    (codes "session", if starts_with (codes "===") l.text then put l.tag none current else current)
continue_source l (some test) current =
    if is_separator l.text
    then (
      codes "session",
      if starts_with (codes "===") l.text then put l.tag none current else current,
    )
    else (test, current)

unfoldable pub source_of : Option Text → Line → Current → Text × Current
unfolding continue_source get_or
source_of none l current = continue_source l (truthy_text (get_or none l.tag current)) current
source_of (some test) l current = (test, put l.tag (some test) current)

module _ (strip : Text → Text) (test_nodeids : List Text) where
  unfoldable pub identify_test : Text → Option Text
  unfolding header_name func_to_nodeid get_or
  identify_test line = elim (first (select (λ nid. contains nid line) test_nodeids)) [
    | some nid ↦ some nid
    | none ↦ elim (header_name (strip line)) [
      | none ↦ none
      | some name ↦ elim (get_or none name (func_to_nodeid [] test_nodeids)) [
        | some nid ↦ some nid
        | none ↦ first (select (λ nid. contains name nid) test_nodeids)
      ]
    ]
  ]

  -- The source of a line, and the current tests behind it. An empty node id counts as none.
  unfoldable pub attribute : Current → Line → Text × Current
  unfolding identify_test source_of
  attribute current l = source_of (truthy_text (identify_test l.text)) l current

  -- The lines of a batch with their sources.
  unfoldable pub attribute_all : Current → List Line → List (Line × Text) × Current
  unfolding attribute
  attribute_all current [] = ([], current)
  attribute_all current (l ∷ ls) =
      let (source, next) = attribute current l in
      let rest = attribute_all next ls in ((l, source) ∷ rest.0, rest.1)
