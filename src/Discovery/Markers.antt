-- ===== src/Discovery/Markers.antt =====
-- routes.py: _discover_markers_from_files. Parameters: `str.isspace`, `str.strip`, `str.lower`, and
-- the characters of words in regular expressions (`\w`).
pub mod Entries
use distributed_verification.Prelude.{
  ℕ, Bool, true, false, not, ◌&&◌, Option, none, some, List, [], ◌∷◌, ◌++◌, map, Text, codes,
  text_eq, starts_with, if◌then◌else◌, any, get_or, put,
}
use distributed_verification.Discovery.{SourceFile, nodeid_for, ends_class}
use distributed_verification.Discovery.Lines.{without, is_indented, class_match, func_match}

-- `builtin_markers`.
abbrev pub builtin_markers : List Text
builtin_markers =
    codes "parametrize"
    ∷ codes "skip"
    ∷ codes "skipif"
    ∷ codes "xfail"
    ∷ codes "usefixtures"
    ∷ codes "filterwarnings"
    ∷ codes "timeout"
    ∷ []

abbrev pub is_builtin : Text → Bool
is_builtin name = any (text_eq name) builtin_markers

-- `current_class` and `pending_markers`.
pub record Scope : Type 0 where
  pub current_class : Option Text
  pub pending : List Text

abbrev given_word : Text → Option Text
given_word [] = none
given_word (c ∷ t) = some (c ∷ t)

module _ (is_word : ℕ → Bool) where
  -- `\w+`, as much as there is.
  unfoldable pub word_chars : Text → Text
  word_chars [] = []
  word_chars (c ∷ t) = let rest = word_chars t in if is_word c then c ∷ rest else []

  abbrev word_behind : Option Text → Option Text
  word_behind none = none
  word_behind (some rest) = given_word (word_chars rest)

  -- `_MARKER_RE.search`: the word at the first place where the expression matches.
  unfoldable pub marker_search : Text → Option Text
  unfolding without word_chars
  marker_search [] = none
  marker_search (c ∷ t) = elim (word_behind (without (codes "@pytest.mark.") (c ∷ t))) [
    | some name ↦ some name
    | none ↦ marker_search t
  ]

-- A line with code that is neither a decorator nor a comment.
unfoldable pub clears_markers : Text → Bool
clears_markers [] = false
clears_markers (c ∷ t) =
    not (starts_with (codes "@") (c ∷ t)) && not (starts_with (codes "#") (c ∷ t))

-- `pending_markers` behind a marker.
unfoldable pub note_marker : Text → List Text → List Text
note_marker name pending = if is_builtin name then pending else pending ++ name ∷ []

-- `marker_map[marker].append(nodeid)`.
unfoldable pub add_marked : List (Text × Text) → List (Text × List Text) → List (Text × List Text)
unfolding get_or put
add_marked [] marked = marked
add_marked ((marker, nodeid) ∷ found) marked =
    add_marked found (put marker (get_or [] marker marked ++ nodeid ∷ []) marked)

module _ (is_space is_word : ℕ → Bool) (strip lower : Text → Text) where
  -- One turn of the loop: the markers with the node id that they are added to.
  unfoldable pub mark_line : Text → Scope → Text → Scope × List (Text × Text)
  unfolding class_match func_match is_indented ends_class marker_search clears_markers note_marker
  mark_line path scope line = elim (class_match is_space line) [
    | some class_name ↦ (record { current_class = some class_name; pending = [] }, [])
    | none ↦
        let current : Option Text =
          if ends_class is_space line && not (starts_with (codes "@") (strip line))
          then none
          else scope.current_class in
        elim (marker_search is_word (strip line)) [
          | some marker ↦ (
            record { current_class = current; pending = note_marker (lower marker) scope.pending },
            [],
          )
          | none ↦ elim (func_match is_space line) [
            | some func_name ↦ (
              record { current_class = current; pending = [] },
              map
                  (λ marker.
                    (marker, nodeid_for path (is_indented is_space line) current func_name))
                  scope.pending,
            )
            | none ↦ (
              record {
                current_class = current;
                pending = if clears_markers (strip line) then [] else scope.pending;
              },
              [],
            )
          ]
        ]
  ]

  unfoldable pub mark_lines : Text → Scope → List Text → List (Text × Text)
  unfolding mark_line
  mark_lines path scope [] = []
  mark_lines path scope (line ∷ lines) =
      let (next, found) = mark_line path scope line in found ++ mark_lines path next lines

  unfoldable pub add_files : List SourceFile → List (Text × List Text) → List (Text × List Text)
  unfolding mark_lines add_marked
  add_files [] marked = marked
  add_files (file ∷ files) marked =
      let start : Scope = record { current_class = none; pending = [] } in
      add_files files (add_marked (mark_lines file.posix_path start file.lines) marked)

  unfoldable pub discover_markers_from_files : List SourceFile → List (Text × List Text)
  unfolding add_files
  discover_markers_from_files files = add_files files []
