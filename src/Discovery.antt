-- ===== src/Discovery.antt =====
-- backend/app/api/routes.py: the discovery of tests. Here _discover_nodeids_from_file and
-- discover_tests. A file is its path and its lines, as `str.splitlines` gives them; the files that
-- `glob` finds, and those of the uploads that can be read, are given.
pub mod Lines
pub mod Source
pub mod Quiet
pub mod RoundTrip
pub mod Names
pub mod Cache
pub mod Markers
use distributed_verification.Prelude.{
  ℕ, Bool, true, false, not, ◌&&◌, ◌||◌, Option, none, some, List, [], ◌∷◌, ◌++◌, map, Text, codes,
  ◌==◌, if◌then◌else◌, starts_with, drop,
}
use distributed_verification.Access.{given_key}
use distributed_verification.Runner.Lines.{last_part_from}
use distributed_verification.Reports.{flat_map}
use Lines.{is_indented, class_match, func_match}

-- A file that the glob finds: its path below the backend, and its lines.
pub record SourceFile : Type 0 where
  pub posix_path : Text
  pub lines : List Text

-- `f"{posix_path}::{func_name}"`, and with a class between.
abbrev pub plain_nodeid : Text → Text → Text
plain_nodeid path func_name = path ++ codes "::" ++ func_name

abbrev pub class_nodeid : Text → Text → Text → Text
class_nodeid path class_name func_name = path ++ codes "::" ++ class_name ++ codes "::" ++ func_name

-- A test by the class around it and whether it is indented.
abbrev pub nodeid_for : Text → Bool → Option Text → Text → Text
nodeid_for path true (some class_name) func_name = class_nodeid path class_name func_name
nodeid_for path true none func_name = plain_nodeid path func_name
nodeid_for path false current func_name = plain_nodeid path func_name

abbrev pub class_after : Bool → Option Text → Option Text
class_after true current = current
class_after false current = none

module _ (is_space : ℕ → Bool) where
  -- A line that is not blank, not indented, no comment, and does not start with "class ".
  unfoldable pub ends_class : Text → Bool
  unfolding is_indented
  ends_class [] = false
  ends_class (c ∷ t) =
      not (is_indented is_space (c ∷ t))
      && not (starts_with (codes "#") (c ∷ t))
      && not (starts_with (codes "class ") (c ∷ t))

  -- One turn of the loop: `current_class` behind the line, and the node ids that it adds.
  unfoldable pub scan_line : Text → Option Text → Text → Option Text × List Text
  unfolding class_match func_match is_indented ends_class
  scan_line path current line = elim (class_match is_space line) [
    | some class_name ↦ (some class_name, [])
    | none ↦
        let reset : Option Text = if ends_class line then none else current in
        elim (func_match is_space line) [
          | none ↦ (reset, [])
          | some func_name ↦ (
            class_after (is_indented is_space line) reset,
            nodeid_for path (is_indented is_space line) reset func_name ∷ [],
          )
        ]
  ]

  unfoldable pub scan_lines : Text → Option Text → List Text → List Text
  unfolding scan_line
  scan_lines path current [] = []
  scan_lines path current (line ∷ lines) =
      let (next, found) = scan_line path current line in found ++ scan_lines path next lines

  unfoldable pub discover_nodeids_from_file : SourceFile → List Text
  unfolding scan_lines
  discover_nodeids_from_file file = scan_lines file.posix_path none file.lines

  -- `nodeids` of all files, in the order of the glob.
  unfoldable pub collect_nodeids : List SourceFile → List Text
  unfolding discover_nodeids_from_file
  collect_nodeids files = flat_map discover_nodeids_from_file files

-- TestItem.
pub record TestItem : Type 0 where
  pub nodeid : Text
  pub path : Text
  pub function : Text

-- What is behind the last "::", if there is one.
unfoldable pub behind_last : Text → Option Text
behind_last [] = none
behind_last (c ∷ t) = elim (behind_last t) [
  | some rest ↦ some rest
  | none ↦ if starts_with (codes "::") (c ∷ t) then some (drop 1 t) else none
]

-- `nodeid.rsplit("::", 1)[-1]`.
unfoldable pub function_of : Text → Text
unfolding behind_last
function_of nodeid = elim (behind_last nodeid) [ some rest ↦ rest | none ↦ nodeid ]

module _ (is_space : ℕ → Bool) where
  unfoldable pub test_items : List SourceFile → List TestItem
  unfolding discover_nodeids_from_file function_of
  test_items [] = []
  test_items (file ∷ files) =
      map
        (λ nodeid. record {
          nodeid = nodeid;
          path = file.posix_path;
          function = function_of nodeid;
        })
        (discover_nodeids_from_file is_space file)
      ++ test_items files

  -- `uploads key` are the files below the upload folders of that key.
  unfoldable pub discover_tests :
      List SourceFile → (Text → List SourceFile) → Option Text → List TestItem
  unfolding test_items
  discover_tests files uploads client_key =
      test_items files
      ++ elim (given_key client_key) [ none ↦ [] | some key ↦ test_items (uploads key) ]
