-- ===== src/Discovery/Markers/Entries.antt =====
-- What the map of the markers holds.
use distributed_verification.Prelude.{
  ℕ, ◌≡◌, inl, inr, Bool, true, false, not, ◌&&◌, List, [], ◌∷◌, map, Text, codes, text_eq,
  starts_with, if◌then◌else◌, All, All-append, Bool-cases, Option-cases, get_or, put,
}
use distributed_verification.Discovery.{SourceFile, ends_class}
use distributed_verification.Discovery.Lines.{is_indented, class_match, func_match}
use distributed_verification.Discovery.Names.{
  IsClass, IsNodeid, nodeid_for-IsNodeid, if-IsClass, class_match-IsNamed, func_match-IsNamed,
}
use distributed_verification.Discovery.Markers.{
  is_builtin, Scope, marker_search, clears_markers, note_marker, mark_line, mark_lines, add_marked,
  add_files, discover_markers_from_files,
}

-- The markers are not pytest's own, and each test is one that the discovery could list.
abbrev pub IsCustom : Text → Type 0
IsCustom marker = is_builtin marker ≡ false

abbrev pub IsTest : Text → Type 0
IsTest nodeid = (path : Text) × IsNodeid path nodeid

abbrev pub IsEntry : Text × List Text → Type 0
IsEntry entry = IsCustom entry.0 × All IsTest entry.1

abbrev IsPair : Text × Text → Type 0
IsPair pair = IsCustom pair.0 × IsTest pair.1

abbrev IsScope : Scope → Type 0
IsScope scope = IsClass scope.current_class × All IsCustom scope.pending

note_marker-IsCustom :
    (name : Text) (pending : List Text)
    → All IsCustom pending
    → All IsCustom (note_marker name pending)
unfolding note_marker
note_marker-IsCustom name pending h = elim (Bool-cases (is_builtin name)) [
  | inl e ↦ rw e h
  | inr e ↦ rw e (All-append IsCustom pending (name ∷ []) h (e, tt))
]

if-IsCustom :
    (b : Bool) (pending : List Text)
    → All IsCustom pending
    → All IsCustom (if b then [] else pending)
if-IsCustom true pending h = tt
if-IsCustom false pending h = h

pairs-IsPair :
    (nodeid : Text) (pending : List Text)
    → IsTest nodeid
    → All IsCustom pending
    → All IsPair (map (λ marker. (marker, nodeid)) pending)
pairs-IsPair nodeid [] t h = tt
pairs-IsPair nodeid (marker ∷ pending) t h = ((h.0, t), pairs-IsPair nodeid pending t h.1)

module _ (is_space is_word : ℕ → Bool) (strip lower : Text → Text) where
  mark_line-IsPair :
      (path : Text) (scope : Scope) (line : Text)
      → IsScope scope
      → IsScope (mark_line is_space is_word strip lower path scope line).0
        × All IsPair (mark_line is_space is_word strip lower path scope line).1
  unfolding mark_line
  mark_line-IsPair path scope line h = elim (Option-cases (class_match is_space line)) [
    | inr (name, e) ↦ rw e ((class_match-IsNamed is_space line e, tt), tt)
    | inl e ↦
        let ended = ends_class is_space line && not (starts_with (codes "@") (strip line)) in
        let current = if-IsClass ended scope.current_class h.0 in
        elim (Option-cases (marker_search is_word (strip line))) [
          | inr (marker, m) ↦
              rw (e, m) ((current, note_marker-IsCustom (lower marker) scope.pending h.1), tt)
          | inl m ↦ elim (Option-cases (func_match is_space line)) [
            | inl f ↦
                rw (e, m, f)
                  ((current, if-IsCustom (clears_markers (strip line)) scope.pending h.1), tt)
            | inr (name, f) ↦
                let test =
                  nodeid_for-IsNodeid path (is_indented is_space line) _ name current
                    (func_match-IsNamed is_space line f) in
                rw (e, m, f) ((current, tt), pairs-IsPair _ scope.pending (path, test) h.1)
          ]
        ]
  ]

  mark_lines-IsPair :
      (path : Text) (lines : List Text) (scope : Scope)
      → IsScope scope
      → All IsPair (mark_lines is_space is_word strip lower path scope lines)
  unfolding mark_lines
  mark_lines-IsPair path [] scope h = tt
  mark_lines-IsPair path (line ∷ lines) scope h =
      let (next, found) = mark_line-IsPair path scope line h in
      All-append IsPair _ _ found (mark_lines-IsPair path lines _ next)

get_or-IsTest :
    (marker : Text) (marked : List (Text × List Text))
    → All IsEntry marked
    → All IsTest (get_or [] marker marked)
unfolding get_or
get_or-IsTest marker [] h = tt
get_or-IsTest marker ((m, nodeids) ∷ marked) h = elim (Bool-cases (text_eq m marker)) [
  | inl e ↦ rw e h.0.1
  | inr e ↦ rw e (get_or-IsTest marker marked h.1)
]

put-IsEntry :
    (marker : Text) (nodeids : List Text) (marked : List (Text × List Text))
    → IsEntry (marker, nodeids)
    → All IsEntry marked
    → All IsEntry (put marker nodeids marked)
unfolding put
put-IsEntry marker nodeids [] h k = (h, tt)
put-IsEntry marker nodeids ((m, old) ∷ marked) h k = elim (Bool-cases (text_eq m marker)) [
  | inl e ↦ rw e ((k.0.0, h.1), k.1)
  | inr e ↦ rw e (k.0, put-IsEntry marker nodeids marked h k.1)
]

add_marked-IsEntry :
    (found : List (Text × Text)) (marked : List (Text × List Text))
    → All IsPair found
    → All IsEntry marked
    → All IsEntry (add_marked found marked)
unfolding add_marked
add_marked-IsEntry [] marked h k = k
add_marked-IsEntry ((marker, nodeid) ∷ found) marked h k =
    let tests = All-append IsTest _ (nodeid ∷ []) (get_or-IsTest marker marked k) (h.0.1, tt) in
    add_marked-IsEntry found _ h.1 (put-IsEntry marker _ marked (h.0.0, tests) k)

module _ (is_space is_word : ℕ → Bool) (strip lower : Text → Text) where
  add_files-IsEntry :
      (files : List SourceFile) (marked : List (Text × List Text))
      → All IsEntry marked
      → All IsEntry (add_files is_space is_word strip lower files marked)
  unfolding add_files
  add_files-IsEntry [] marked h = h
  add_files-IsEntry (file ∷ files) marked h = add_files-IsEntry files _ (
      add_marked-IsEntry _ marked
        (mark_lines-IsPair is_space is_word strip lower file.posix_path file.lines _ (tt, tt)) h)

-- Whatever the files, a marker of the map is never one of pytest's own, and each of its tests is a
-- node id of the shape that the discovery lists: a path, perhaps a test class, and a test function.
pub discover_markers-IsEntry :
    (is_space is_word : ℕ → Bool) (strip lower : Text → Text) (files : List SourceFile)
    → All IsEntry (discover_markers_from_files is_space is_word strip lower files)
unfolding discover_markers_from_files
discover_markers-IsEntry is_space is_word strip lower files =
    add_files-IsEntry is_space is_word strip lower files [] tt
