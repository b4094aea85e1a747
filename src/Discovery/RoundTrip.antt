-- ===== src/Discovery/RoundTrip.antt =====
-- A file that is laid out as Source says is discovered as it stands.
use mathlib.Core.List.{append_assoc}
use distributed_verification.Prelude.{
  ℕ, ◌≡◌, refl, ap, ◌∙◌, arith, Bool, true, false, Option, none, some, List, [], ◌∷◌, ◌++◌, map,
  Text, codes, all, All, if◌then◌else◌,
}
use distributed_verification.Reports.{flat_map}
use distributed_verification.Runner.CliCapture.{skip_spaces}
use distributed_verification.Discovery.{
  plain_nodeid, class_nodeid, ends_class, scan_line, scan_lines, class_after, nodeid_for,
  discover_nodeids_from_file,
}
use distributed_verification.Discovery.Lines.{
  is_letter, is_name_char, without, name_chars, named, name_after, is_indented, behind_blanks,
  keyword_match, class_match, func_match,
}
use distributed_verification.Discovery.Quiet.{IsQuiet-none, IsOther-none}
use distributed_verification.Discovery.Source.{
  TestDef, Item, function, test_class, other, def_line, class_line, render_def, render_item, render,
  item_nodeids, nodeids_of, is_name, ends_name, SpaceLaws, IsQuiet, IsOther, IsDef, IsMethod,
  IsItem,
}

without-append : (s t : Text) → without s (s ++ t) ≡ some t
unfolding without
without-append [] t = refl
without-append (c ∷ s) t = ground (arith, without-append s t)

name_chars-append :
    (w tail : Text) → all is_name_char w ≡ true → ends_name tail ≡ true → name_chars (w ++ tail) ≡ w
unfolding name_chars
name_chars-append [] [] h k = refl
name_chars-append [] (c ∷ t) h k = ground arith
name_chars-append (c ∷ w) tail h k = ground (arith, name_chars-append w tail)

name_after-append :
    (start w tail : Text)
    → is_name w ≡ true
    → ends_name tail ≡ true
    → name_after start (without start (start ++ (w ++ tail))) ≡ some (start ++ w)
unfolding name_after
name_after-append start [] tail h k = cc
name_after-append start (c ∷ w) tail h k =
    ap (name_after start) (without-append start (c ∷ (w ++ tail)))
    ∙ ap (named start) (name_chars-append (c ∷ w) tail h k)

module _ (is_space : ℕ → Bool) (laws : SpaceLaws is_space) where
  skip_spaces-letter :
      (c : ℕ) (t : Text) → is_letter c ≡ true → skip_spaces is_space (c ∷ t) ≡ c ∷ t
  unfolding skip_spaces
  skip_spaces-letter c t h = ground (arith, laws.letter c h)

  skip_spaces-blanks :
      (blanks : Text) (c : ℕ) (t : Text)
      → all is_space blanks ≡ true
      → is_letter c ≡ true
      → skip_spaces is_space (blanks ++ c ∷ t) ≡ c ∷ t
  unfolding skip_spaces
  skip_spaces-blanks [] c t h k = skip_spaces-letter c t k
  skip_spaces-blanks (b ∷ blanks) c t h k = ground (arith, skip_spaces-blanks blanks c t)

  behind_blanks-letter :
      (c : ℕ) (t : Text)
      → is_letter c ≡ true
      → behind_blanks is_space (some (b' ' ∷ c ∷ t)) ≡ some (c ∷ t)
  unfolding behind_blanks
  behind_blanks-letter c t h = rw (laws.blank, laws.letter c h) refl

  -- A keyword, a blank, and a name that starts with a letter.
  keyword_match-render :
      (keyword : Text) (c : ℕ) (start w tail : Text)
      → is_letter c ≡ true
      → is_name w ≡ true
      → ends_name tail ≡ true
      → keyword_match is_space keyword (c ∷ start) (keyword ++ b' ' ∷ ((c ∷ start) ++ (w ++ tail)))
        ≡ some ((c ∷ start) ++ w)
  unfolding keyword_match
  keyword_match-render keyword c start w tail l h k =
      ap
        (λ rest. elim (behind_blanks is_space rest) [
          | none ↦ none
          | some t ↦ name_after (c ∷ start) (without (c ∷ start) t)
        ])
        (without-append keyword (b' ' ∷ ((c ∷ start) ++ (w ++ tail))))
      ∙ ap
          (λ rest. elim rest [
            | none ↦ none
            | some t ↦ name_after (c ∷ start) (without (c ∷ start) t)
          ])
          (behind_blanks-letter c (start ++ (w ++ tail)) l)
      ∙ name_after-append (c ∷ start) w tail h k

  class_match-line :
      (name tail : Text)
      → is_name name ≡ true
      → ends_name tail ≡ true
      → class_match is_space (class_line name tail) ≡ some (codes "Test" ++ name)
  unfolding class_match
  class_match-line name tail h k =
      keyword_match-render (codes "class") b'T' (codes "est") name tail refl h k

  func_match-line :
      (d : TestDef)
      → IsDef is_space d
      → all is_space d.indent ≡ true
      → func_match is_space (def_line d) ≡ some (codes "test_" ++ d.name)
  unfolding func_match
  func_match-line d h s =
      ap (keyword_match is_space (codes "def") (codes "test_")) (
        skip_spaces-blanks d.indent b'd'
          (codes "ef" ++ b' ' ∷ (codes "test_" ++ (d.name ++ d.tail))) s refl)
      ∙ keyword_match-render (codes "def") b't' (codes "est_") d.name d.tail refl h.0 h.1

  -- The line of a function is no class, whatever its indent.
  class_match-indented :
      (indent t : Text)
      → all is_space indent ≡ true
      → class_match is_space (indent ++ (codes "def" ++ t)) ≡ none
  unfolding class_match keyword_match without
  class_match-indented [] t s = refl
  class_match-indented (c ∷ indent) t s = ground (arith, laws.letter c)

  class_match-def :
      (d : TestDef) → all is_space d.indent ≡ true → class_match is_space (def_line d) ≡ none
  class_match-def d s =
      class_match-indented d.indent (b' ' ∷ (codes "test_" ++ (d.name ++ d.tail))) s

  scan_line-quiet :
      (path : Text) (current : Option Text) (line : Text)
      → IsQuiet is_space line
      → scan_line is_space path current line ≡ (current, [])
  unfolding scan_line
  scan_line-quiet path current line h =
      let (c, f, e) = IsQuiet-none is_space laws line h in rw (c, f, e) refl

  scan_lines-quiet :
      (path : Text) (current : Option Text) (lines rest : List Text)
      → All (IsQuiet is_space) lines
      → scan_lines is_space path current (lines ++ rest) ≡ scan_lines is_space path current rest
  unfolding scan_lines
  scan_lines-quiet path current [] rest h = refl
  scan_lines-quiet path current (line ∷ lines) rest h =
      rw (scan_line-quiet path current line h.0) (scan_lines-quiet path current lines rest h.1)

  scan_lines-step :
      (path : Text) (current next : Option Text) (line : Text) (found rest : List Text)
      → scan_line is_space path current line ≡ (next, found)
      → scan_lines is_space path current (line ∷ rest) ≡ found ++ scan_lines is_space path next rest
  unfolding scan_lines
  scan_lines-step path current next line found rest e = rw e refl

  scan_line-class :
      (path : Text) (current : Option Text) (name tail : Text)
      → is_name name ≡ true
      → ends_name tail ≡ true
      → scan_line is_space path current (class_line name tail) ≡ (some (codes "Test" ++ name), [])
  unfolding scan_line
  scan_line-class path current name tail h k = rw (scan_line, class_match-line name tail h k) refl

  scan_line-other :
      (path : Text) (current : Option Text) (line : Text)
      → IsOther is_space line
      → scan_line is_space path current line ≡ (none, [])
  unfolding scan_line
  scan_line-other path current line h =
      let (c, f, e) = IsOther-none is_space laws line h in rw (c, f, e) refl

  is_indented-append :
      (indent t : Text)
      → is_indented is_space indent ≡ true
      → is_indented is_space (indent ++ t) ≡ true
  unfolding is_indented
  is_indented-append [] t h = cc
  is_indented-append (c ∷ indent) t h = h

  ends_class-indented : (t : Text) → is_indented is_space t ≡ true → ends_class is_space t ≡ false
  unfolding ends_class
  ends_class-indented [] h = refl
  ends_class-indented (c ∷ t) h = rw h refl

  -- A line with a test, by what the parts of the loop make of it.
  scan_line-test :
      (path : Text) (current : Option Text) (line func_name : Text) (indented ended : Bool)
      → class_match is_space line ≡ none
      → func_match is_space line ≡ some func_name
      → is_indented is_space line ≡ indented
      → ends_class is_space line ≡ ended
      → scan_line is_space path current line ≡ (
        class_after indented (if ended then none else current),
        nodeid_for path indented (if ended then none else current) func_name ∷ [],
      )
  unfolding scan_line
  scan_line-test path current line func_name indented ended c f i e = rw (c, f, i, e) refl

  is_indented-def :
      (indent t : Text) → indent ≡ [] → is_indented is_space (indent ++ (codes "def" ++ t)) ≡ false
  unfolding is_indented
  is_indented-def [] t e = laws.letter b'd' refl
  is_indented-def (c ∷ indent) t e = cc

  scan_line-function :
      (path : Text) (current : Option Text) (d : TestDef)
      → IsDef is_space d
      → d.indent ≡ []
      → scan_line is_space path current (def_line d)
        ≡ (none, plain_nodeid path (codes "test_" ++ d.name) ∷ [])
  scan_line-function path current d h e =
      let blanks : all is_space d.indent ≡ true = rw e refl in
      scan_line-test path current (def_line d) _ false _ (class_match-def d blanks)
        (func_match-line d h blanks) (is_indented-def d.indent _ e) refl

  scan_line-method :
      (path class_name : Text) (d : TestDef)
      → IsMethod is_space d
      → scan_line is_space path (some class_name) (def_line d)
        ≡ (some class_name, class_nodeid path class_name (codes "test_" ++ d.name) ∷ [])
  scan_line-method path class_name d h =
      let inside = is_indented-append d.indent _ h.1 in
      scan_line-test path (some class_name) (def_line d) _ true false (class_match-def d h.2)
        (func_match-line d h.0 h.2) inside (ends_class-indented (def_line d) inside)

  scan_lines-methods :
      (path class_name : Text) (methods : List TestDef) (rest : List Text)
      → All (IsMethod is_space) methods
      → scan_lines is_space path (some class_name) (flat_map render_def methods ++ rest)
        ≡ map (λ (d : TestDef). class_nodeid path class_name (codes "test_" ++ d.name)) methods
          ++ scan_lines is_space path (some class_name) rest
  scan_lines-methods path class_name [] rest h = refl
  scan_lines-methods path class_name (d ∷ methods) rest h =
      ap (scan_lines is_space path (some class_name))
        (append_assoc (render_def d) (flat_map render_def methods) rest)
      ∙ scan_lines-step path (some class_name) (some class_name) (def_line d) _ _
          (scan_line-method path class_name d h.0)
      ∙ ap (◌∷◌ (class_nodeid path class_name (codes "test_" ++ d.name))) (
          scan_lines-quiet path (some class_name) d.body _ h.0.0.2
          ∙ scan_lines-methods path class_name methods rest h.1)

  -- The class that is open behind an item.
  scan_lines-item :
      (path : Text) (current : Option Text) (item : Item) (rest : List Text)
      → IsItem is_space item
      → (next : Option Text) × (scan_lines is_space path current (render_item item ++ rest)
          ≡ item_nodeids path item ++ scan_lines is_space path next rest)
  scan_lines-item path current (function d) rest h = (
    none,
    scan_lines-step path current none (def_line d) _ _ (scan_line-function path current d h.0 h.1)
        ∙ ap (◌∷◌ (plain_nodeid path (codes "test_" ++ d.name)))
            (scan_lines-quiet path none d.body rest h.0.2),
  )
  scan_lines-item path current (test_class name tail docs methods) rest h =
      let class_name = codes "Test" ++ name in
      (
        some class_name,
        scan_lines-step path current (some class_name) (class_line name tail) [] _
              (scan_line-class path current name tail h.0 h.1)
            ∙ ap (scan_lines is_space path (some class_name))
                (append_assoc docs (flat_map render_def methods) rest)
            ∙ scan_lines-quiet path (some class_name) docs _ h.2
            ∙ scan_lines-methods path class_name methods rest h.3,
      )
  scan_lines-item path current (other line body) rest h = (
    none,
    scan_lines-step path current none line [] _ (scan_line-other path current line h.0)
        ∙ scan_lines-quiet path none body rest h.1,
  )

  scan_lines-render :
      (path : Text) (current : Option Text) (items : List Item)
      → All (IsItem is_space) items
      → scan_lines is_space path current (render items) ≡ nodeids_of path items
  unfolding scan_lines
  scan_lines-render path current [] h = refl
  scan_lines-render path current (item ∷ items) h =
      let (next, e) = scan_lines-item path current item (render items) h.0 in
      e ∙ ap (◌++◌ (item_nodeids path item)) (scan_lines-render path next items h.1)

-- In a file that is laid out from functions, test classes and other code, the node ids that are
-- discovered are those of its tests, in order: a function's with the path, a method's with the path
-- and its class. The methods of a class have one indent. No other line, behind its indent, starts
-- with "class" or "async", or with "def" and a name with "test_": neither a class that is no Test
-- class nor a coroutine is in the file.
pub discover-render :
    (is_space : ℕ → Bool) (path : Text) (items : List Item)
    → SpaceLaws is_space
    → All (IsItem is_space) items
    → discover_nodeids_from_file is_space (record { posix_path = path; lines = render items })
      ≡ nodeids_of path items
unfolding discover_nodeids_from_file
discover-render is_space path items laws h = scan_lines-render is_space laws path none items h
