-- ===== src/Runner/Commands.antt =====
-- runner.py: what capture_cli_run makes of a command: its arguments, whether they call pytest, and
-- their targets. `sys.executable` and `str.lower` are parameters; a path is one of POSIX.
use distributed_verification.Prelude.{
  ℕ, Bool, true, false, ◌&&◌, ◌||◌, Option, none, some, List, [], ◌∷◌, ◌++◌, Text, codes, text_eq,
  starts_with, contains, ◌==◌, if◌then◌else◌, any,
}

-- `text.rsplit(sep, 1)[-1]` for one character: what is behind the last one, or all of the text.
unfoldable pub after_last : ℕ → Text → Option Text
after_last sep [] = none
after_last sep (c ∷ t) =
    let rest = after_last sep t in
    elim rest [ some after ↦ some after | none ↦ if c == sep then some t else none ]

abbrev pub last_split : ℕ → Text → Text
last_split sep t = elim (after_last sep t) [ some after ↦ after | none ↦ t ]

-- `[sys.executable, "-m"] + args`, with "-v" and "--tb=short" if they are missing.
abbrev pub with_flag : Bool → Text → List Text → List Text
with_flag present flag args = if present then args else args ++ flag ∷ []

unfoldable pub complete_args : Text → List Text → List Text
complete_args executable [] = []
complete_args executable (a ∷ args) =
    let verbose =
      with_flag (any (λ b. text_eq b (codes "-v")) (a ∷ args)) (codes "-v") (a ∷ args) in
    let short =
      with_flag (any (λ b. starts_with (codes "--tb") b) verbose) (codes "--tb=short") verbose in
    if text_eq a (codes "pytest") then executable ∷ codes "-m" ∷ short else a ∷ args

-- The flags behind which a value stands.
abbrev pub value_flags : List Text
value_flags =
    codes "-k"
    ∷ codes "-m"
    ∷ codes "-p"
    ∷ codes "--rootdir"
    ∷ codes "--override-ini"
    ∷ codes "--co"
    ∷ codes "-c"
    ∷ codes "--tb"
    ∷ codes "--junitxml"
    ∷ codes "--cov"
    ∷ codes "--cov-report"
    ∷ codes "--alluredir"
    ∷ codes "-n"
    ∷ codes "--dist"
    ∷ []

module _ (executable : Text) (lower : Text → Text) where
  -- `base` behind the loop over the two separators, where `basename` found none.
  abbrev mangled_base : Text → Text
  mangled_base arg =
      if contains (codes "/") arg
      then last_split b'/' arg
      else (if contains (codes "\\") arg then last_split b'\\' arg else arg)

  unfoldable pub looks_like_python : Text → Bool
  unfolding after_last
  looks_like_python arg =
      let base = last_split b'/' arg in
      let mangled = text_eq base [] || text_eq base arg in
      let base' = if mangled then mangled_base arg else base in
      text_eq arg executable
      || mangled && text_eq base' arg && contains (codes "python") (lower arg)
      || starts_with (codes "python") (lower base')

  -- The loop at its start has no effect.
  unfoldable pub is_pytest_command : List Text → Bool
  unfolding looks_like_python
  is_pytest_command [] = false
  is_pytest_command (a ∷ []) = text_eq a (codes "pytest")
  is_pytest_command (a ∷ b ∷ []) = text_eq a (codes "pytest")
  is_pytest_command (a ∷ b ∷ c ∷ args) =
      text_eq a (codes "pytest")
      || looks_like_python a && text_eq b (codes "-m") && text_eq c (codes "pytest")

  -- The first argument is `skip_next`.
  unfoldable pub targets_from : Bool → List Text → List Text
  unfolding looks_like_python
  targets_from skip_next [] = []
  targets_from true (a ∷ args) = targets_from false args
  targets_from false (a ∷ args) =
      let rest = targets_from false args in
      let rest' = targets_from true args in
      if looks_like_python a || text_eq a (codes "-m") || text_eq a (codes "pytest")
      then rest
      else (if any (λ f. text_eq f a) value_flags
          then rest'
          else (if starts_with (codes "-") a then rest else a ∷ rest))

  unfoldable pub extract_test_targets_from_args : List Text → List Text
  unfolding targets_from
  extract_test_targets_from_args args = targets_from false args
