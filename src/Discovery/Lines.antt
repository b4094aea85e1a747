-- ===== src/Discovery/Lines.antt =====
-- routes.py: the regular expressions that the discovery matches lines with. The parameter
-- `is_space` is `str.isspace` of a character, which is also what `\s` matches.
use distributed_verification.Prelude.{
  ℕ, Bool, false, ◌&&◌, ◌||◌, Option, none, some, [], ◌∷◌, ◌++◌, Text, codes, ◌==◌, leb,
  if◌then◌else◌,
}
use distributed_verification.Runner.CliCapture.{skip_spaces}

abbrev within : ℕ → ℕ → ℕ → Bool
within lo hi c = leb lo c && leb c hi

abbrev pub is_letter : ℕ → Bool
is_letter c = within b'A' b'Z' c || within b'a' b'z' c

-- `[A-Za-z0-9_]`.
abbrev pub is_name_char : ℕ → Bool
is_name_char c = is_letter c || within b'0' b'9' c || c == b'_'

-- What is behind a literal at the start of a text.
unfoldable pub without : Text → Text → Option Text
without [] t = some t
without (c ∷ s) [] = none
without (c ∷ s) (d ∷ t) = let rest = without s t in if c == d then rest else none

-- `[A-Za-z0-9_]+`, as much as there is; `[]` if it does not match.
unfoldable pub name_chars : Text → Text
name_chars [] = []
name_chars (c ∷ t) = let rest = name_chars t in if is_name_char c then c ∷ rest else []

abbrev pub named : Text → Text → Option Text
named start [] = none
named start (c ∷ name) = some (start ++ c ∷ name)

unfoldable pub name_after : Text → Option Text → Option Text
unfolding name_chars
name_after start none = none
name_after start (some t) = named start (name_chars t)

module _ (is_space : ℕ → Bool) where
  -- `line and line[0].isspace()`.
  unfoldable pub is_indented : Text → Bool
  is_indented [] = false
  is_indented (c ∷ t) = is_space c

  -- `\s+` before a name.
  unfoldable pub behind_blanks : Option Text → Option Text
  unfolding is_indented skip_spaces
  behind_blanks none = none
  behind_blanks (some t) = if is_indented t then some (skip_spaces is_space t) else none

  -- `keyword\s+(start[A-Za-z0-9_]+)` at the start of a text.
  unfoldable pub keyword_match : Text → Text → Text → Option Text
  unfolding without name_after behind_blanks
  keyword_match keyword start t = elim (behind_blanks (without keyword t)) [
    | none ↦ none
    | some rest ↦ name_after start (without start rest)
  ]

  -- `^class\s+(Test[A-Za-z0-9_]+)`.
  unfoldable pub class_match : Text → Option Text
  unfolding keyword_match
  class_match line = keyword_match (codes "class") (codes "Test") line

  -- `^(\s+)?def\s+(test_[A-Za-z0-9_]+)`: the name. The indent is not empty if the line starts with
  -- a blank.
  unfoldable pub func_match : Text → Option Text
  unfolding keyword_match skip_spaces
  func_match line = keyword_match (codes "def") (codes "test_") (skip_spaces is_space line)
