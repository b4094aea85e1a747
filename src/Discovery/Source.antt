-- ===== src/Discovery/Source.antt =====
-- Test files as they are laid out: functions, classes with methods, and other code. The discovery
-- is compared with what stands in them.
use distributed_verification.Prelude.{
  ℕ, ◌≡◌, Bool, true, false, not, ◌||◌, ◌==◌, ◌⊎◌, starts_with, drop, List, [], ◌∷◌, ◌++◌, map,
  Text, codes, all, All,
}
use distributed_verification.Reports.{flat_map}
use distributed_verification.Runner.CliCapture.{skip_spaces}
use distributed_verification.Discovery.{plain_nodeid, class_nodeid}
use distributed_verification.Discovery.Lines.{is_letter, is_name_char, is_indented}

-- A test function or method: the name behind "test_", the rest of its first line, and the lines
-- below.
pub record TestDef : Type 0 where
  pub indent : Text
  pub name : Text
  pub tail : Text
  pub body : List Text

-- A top-level statement of a file. A test class has a name behind "Test", and lines before its
-- first method.
pub data Item : Type 0 where
  function : TestDef → Item
  test_class : Text → Text → List Text → List TestDef → Item
  other : Text → List Text → Item

abbrev pub def_line : TestDef → Text
def_line d = d.indent ++ (codes "def" ++ b' ' ∷ (codes "test_" ++ (d.name ++ d.tail)))

abbrev pub class_line : Text → Text → Text
class_line name tail = codes "class" ++ b' ' ∷ (codes "Test" ++ (name ++ tail))

abbrev pub render_def : TestDef → List Text
render_def d = def_line d ∷ d.body

abbrev pub render_item : Item → List Text
render_item (function d) = render_def d
render_item (test_class name tail docs methods) =
    class_line name tail ∷ (docs ++ flat_map render_def methods)
render_item (other line body) = line ∷ body

abbrev pub render : List Item → List Text
render = flat_map render_item

-- The node ids that pytest gives the tests of the file.
abbrev pub item_nodeids : Text → Item → List Text
item_nodeids path (function d) = plain_nodeid path (codes "test_" ++ d.name) ∷ []
item_nodeids path (test_class name tail docs methods) =
    map (λ (d : TestDef). class_nodeid path (codes "Test" ++ name) (codes "test_" ++ d.name))
      methods
item_nodeids path (other line body) = []

abbrev pub nodeids_of : Text → List Item → List Text
nodeids_of path = flat_map (item_nodeids path)

-- At least one character, and all of `[A-Za-z0-9_]`.
abbrev pub is_name : Text → Bool
is_name [] = false
is_name (c ∷ t) = all is_name_char (c ∷ t)

-- The text does not go on with a character of a name.
abbrev pub ends_name : Text → Bool
ends_name [] = true
ends_name (c ∷ t) = not (is_name_char c)

-- The blank is blank and a letter is not.
pub record SpaceLaws (is_space : ℕ → Bool) : Type 0 where
  pub blank : is_space b' ' ≡ true
  pub letter : (c : ℕ) → is_letter c ≡ true → is_space c ≡ false

module _ (is_space : ℕ → Bool) where
  -- An empty line, or one that starts with a blank or with "#".
  abbrev pub is_set_in : Text → Bool
  is_set_in [] = true
  is_set_in (c ∷ t) = is_space c || c == b'#'

  -- Behind its indent the line does not start with "class" or "async", and it does not start with
  -- "def", or what follows that and blanks does not start with "test_".
  abbrev pub IsPlain : Text → Type 0
  IsPlain line =
      let code = skip_spaces is_space line in
      (starts_with (codes "class") code ≡ false)
      × (starts_with (codes "async") code ≡ false)
      × ((starts_with (codes "def") code ≡ false)
          ⊎ (starts_with (codes "test_") (skip_spaces is_space (drop 3 code)) ≡ false))

  -- A line that may stand in a class or a function.
  abbrev pub IsQuiet : Text → Type 0
  IsQuiet line = (is_set_in line ≡ true) × IsPlain line

  -- Code at the left margin: an import, a decorator, a helper function.
  abbrev pub IsOther : Text → Type 0
  IsOther line = (is_set_in line ≡ false) × IsPlain line

  abbrev pub IsDef : TestDef → Type 0
  IsDef d = (is_name d.name ≡ true) × (ends_name d.tail ≡ true) × All IsQuiet d.body

  -- A method is indented by blanks.
  abbrev pub IsMethod : TestDef → Type 0
  IsMethod d = IsDef d × (is_indented is_space d.indent ≡ true) × (all is_space d.indent ≡ true)

  -- The methods of a class have one indent.
  abbrev pub SameIndent : List TestDef → Type 0
  SameIndent [] = Unit
  SameIndent (d ∷ methods) = All (λ (m : TestDef). m.indent ≡ d.indent) methods

  abbrev pub IsItem : Item → Type 0
  IsItem (function d) = IsDef d × (d.indent ≡ [])
  IsItem (test_class name tail docs methods) =
      (is_name name ≡ true)
      × (ends_name tail ≡ true)
      × All IsQuiet docs
      × All IsMethod methods
      × SameIndent methods
  IsItem (other line body) = IsOther line × All IsQuiet body
