-- ===== src/Discovery/Quiet.antt =====
-- What the discovery makes of the lines that are no tests and no test classes.
use distributed_verification.Prelude.{
  ℕ, ◌≡◌, refl, ap, ◌∙◌, ◌⊎◌, inl, inr, arith, Bool, true, false, Option, none, some, [], ◌∷◌, ◌++◌,
  Text, codes, starts_with, length, drop, Bool-cases,
}
use distributed_verification.Runner.CliCapture.{skip_spaces}
use distributed_verification.Discovery.{ends_class}
use distributed_verification.Discovery.Lines.{
  without, name_after, is_indented, behind_blanks, keyword_match, class_match, func_match,
}
use distributed_verification.Discovery.Source.{SpaceLaws, is_set_in, IsPlain, IsQuiet, IsOther}

without-eq-none : (s t : Text) → starts_with s t ≡ false → without s t ≡ none
unfolding without
without-eq-none [] t h = cc
without-eq-none (c ∷ s) [] h = refl
without-eq-none (c ∷ s) (d ∷ t) h = ground (arith, without-eq-none s t)

without-eq-some : (s t : Text) → starts_with s t ≡ true → without s t ≡ some (drop (length s) t)
unfolding without
without-eq-some [] t h = refl
without-eq-some (c ∷ s) [] h = cc
without-eq-some (c ∷ s) (d ∷ t) h = ground (arith, without-eq-some s t)

starts_with-longer : (s r t : Text) → starts_with s t ≡ false → starts_with (s ++ r) t ≡ false
starts_with-longer [] r t h = cc
starts_with-longer (c ∷ s) r [] h = refl
starts_with-longer (c ∷ s) r (d ∷ t) h = ground (arith, starts_with-longer s r t)

module _ (is_space : ℕ → Bool) (laws : SpaceLaws is_space) where
  -- What is behind a keyword, if there is one, starts no name.
  abbrev IsNameless : Text → Option Text → Type 0
  IsNameless start none = Unit
  IsNameless start (some t) = starts_with start (skip_spaces is_space t) ≡ false

  abbrev name_behind : Text → Option Text → Option Text
  name_behind start o = elim (behind_blanks is_space o) [
    | none ↦ none
    | some rest ↦ name_after start (without start rest)
  ]

  name_behind-eq-none :
      (start : Text) (o : Option Text) → IsNameless start o → name_behind start o ≡ none
  unfolding behind_blanks name_after
  name_behind-eq-none start none h = refl
  name_behind-eq-none start (some t) h = elim (Bool-cases (is_indented is_space t)) [
    | inl e ↦
        rw (name_behind, behind_blanks, e)
          (rw (without-eq-none start (skip_spaces is_space t) h) refl)
    | inr e ↦ rw (name_behind, behind_blanks, e) refl
  ]

  -- A keyword that is not there, or no name behind it.
  keyword_match-eq-none :
      (keyword start t : Text)
      → (starts_with keyword t ≡ false)
        ⊎ (starts_with start (skip_spaces is_space (drop (length keyword) t)) ≡ false)
      → keyword_match is_space keyword start t ≡ none
  unfolding keyword_match
  keyword_match-eq-none keyword start t h = elim (Bool-cases (starts_with keyword t)) [
    | inr e ↦ ap (name_behind start) (without-eq-none keyword t e)
    | inl e ↦
        ap (name_behind start) (without-eq-some keyword t e)
        ∙ name_behind-eq-none start (some (drop (length keyword) t)) (no_start e h)
  ]
    where
      no_start :
          starts_with keyword t ≡ true
          → (starts_with keyword t ≡ false)
            ⊎ (starts_with start (skip_spaces is_space (drop (length keyword) t)) ≡ false)
          → starts_with start (skip_spaces is_space (drop (length keyword) t)) ≡ false
      no_start e (inl k) = cc
      no_start e (inr k) = k

  func_match-plain : (line : Text) → IsPlain is_space line → func_match is_space line ≡ none
  unfolding func_match
  func_match-plain line h =
      keyword_match-eq-none (codes "def") (codes "test_") (skip_spaces is_space line) h.2

  -- A line that is set in starts with no letter.
  starts_with-set_in :
      (line : Text) → is_set_in is_space line ≡ true → starts_with (codes "class") line ≡ false
  starts_with-set_in [] h = refl
  starts_with-set_in (c ∷ t) h = ground (arith, laws.letter c)

  class_at_margin :
      (line : Text)
      → is_set_in is_space line ≡ false
      → starts_with (codes "class") (skip_spaces is_space line) ≡ false
      → starts_with (codes "class") line ≡ false
  unfolding skip_spaces
  class_at_margin [] h k = refl
  class_at_margin (c ∷ t) h k = let no_blank : is_space c ≡ false = ground arith in rw no_blank at k

  ends_class-set_in :
      (line : Text) → is_set_in is_space line ≡ true → ends_class is_space line ≡ false
  unfolding ends_class is_indented
  ends_class-set_in [] h = refl
  ends_class-set_in (c ∷ t) h = ground arith

  ends_class-other :
      (line : Text)
      → is_set_in is_space line ≡ false
      → starts_with (codes "class") line ≡ false
      → ends_class is_space line ≡ true
  unfolding ends_class is_indented
  ends_class-other [] h k = cc
  ends_class-other (c ∷ t) h k =
      let longer = starts_with-longer (codes "class") (codes " ") (c ∷ t) k in
      ground (arith, longer)

  pub IsQuiet-none :
      (line : Text)
      → IsQuiet is_space line
      → (class_match is_space line ≡ none)
        × (func_match is_space line ≡ none)
        × (ends_class is_space line ≡ false)
  unfolding class_match
  IsQuiet-none line h = (
    keyword_match-eq-none (codes "class") (codes "Test") line (inl (starts_with-set_in line h.0)),
    func_match-plain line h.1,
    ends_class-set_in line h.0,
  )

  pub IsOther-none :
      (line : Text)
      → IsOther is_space line
      → (class_match is_space line ≡ none)
        × (func_match is_space line ≡ none)
        × (ends_class is_space line ≡ true)
  unfolding class_match
  IsOther-none line h =
      let no_class = class_at_margin line h.0 h.1.0 in
      (
        keyword_match-eq-none (codes "class") (codes "Test") line (inl no_class),
        func_match-plain line h.1,
        ends_class-other line h.0 no_class,
      )
