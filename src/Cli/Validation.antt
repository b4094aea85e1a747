-- ===== src/Cli/Validation.antt =====
-- Which commands the validation lets through.
use mathlib.Core.Path.{subst}
use distributed_verification.Prelude.{
  ℕ, ◌≡◌, refl, sym, ◌⊎◌, inl, inr, Bool, true, false, not, ◌&&◌, Option, none, some, List, [], ◌∷◌,
  ◌++◌, arith, Text, codes, leb, text_eq_iff, starts_with, if◌then◌else◌, Bool-cases, Option-cases,
  length, take, drop, any, all, All,
}
use distributed_verification.Cli.{
  allowed_cli_prefixes, is_blocked, words_eq, is_path_char, is_argument, skip_of, check_tokens,
  validate_cli_command,
}

words_eq_iff : (vs ws : List Text) → words_eq vs ws ≡ true → vs ≡ ws
words_eq_iff [] [] h = refl
words_eq_iff [] (w ∷ ws) h = cc
words_eq_iff (v ∷ vs) [] h = cc
words_eq_iff (v ∷ vs) (w ∷ ws) h = ground (arith, text_eq_iff v w, words_eq_iff vs ws)

passed :
    (blocked prefixed checked : Bool)
    → (if blocked then false else (if not prefixed then false else checked)) ≡ true
    → (blocked ≡ false) × (checked ≡ true)
passed blocked prefixed checked h = ground arith

module _ (p : Text → Bool) where
  all-take-drop :
      (n : ℕ) (ts : List Text)
      → all p (take n ts) ≡ true
      → all p (drop n ts) ≡ true
      → all p ts ≡ true
  all-take-drop ℕ.zero ts h k = k
  all-take-drop (ℕ.suc n) [] h k = refl
  all-take-drop (ℕ.suc n) (t ∷ ts) h k = ground (arith, all-take-drop n ts)

  all-All : (ts : List Text) → all p ts ≡ true → All (λ t. p t ≡ true) ts
  all-All [] h = tt
  all-All (t ∷ ts) h = (ground arith, all-All ts (ground arith))

all-drop_one : (p : Text → Bool) (t : Text) → p t ≡ true → (n : ℕ) → all p (drop n (t ∷ [])) ≡ true
all-drop_one p t h ℕ.zero = ground arith
all-drop_one p t h (ℕ.suc ℕ.zero) = refl
all-drop_one p t h (ℕ.suc (ℕ.suc n)) = refl

module _ (strip : Text → Text) (split : Text → Option (List Text)) (is_word : ℕ → Bool) where
  -- What `shlex.split` makes of the three prefixes, and the letters among the word characters.
  pub record IsShell : Type 0 where
    pub pytest : split (codes "pytest") ≡ some (codes "pytest" ∷ [])
    pub python_pytest :
        split (codes "python -m pytest") ≡ some (codes "python" ∷ codes "-m" ∷ codes "pytest" ∷ [])
    pub python_unittest :
        split (codes "python -m unittest")
        ≡ some (codes "python" ∷ codes "-m" ∷ codes "unittest" ∷ [])
    pub letters : (c : ℕ) → (leb 97 c && leb c 122) ≡ true → is_word c ≡ true

  -- The words of a prefix are arguments.
  PlainWords : List Text → Type 0
  PlainWords prefixes =
      All
        (λ q.
          (ws : List Text) → split q ≡ some ws → all (is_argument strip split is_word) ws ≡ true)
        prefixes

  skip_of_cases :
      (q : Text) (prefixes ts : List Text)
      → (skip_of strip split is_word (q ∷ prefixes) ts ≡ skip_of strip split is_word prefixes ts)
        ⊎ ((ws : List Text) × (split q ≡ some ws)
            × (take (length ws) ts ≡ ws)
            × (skip_of strip split is_word (q ∷ prefixes) ts ≡ length ws))
  unfolding skip_of
  skip_of_cases q prefixes ts = elim (Option-cases (split q)) [
    | inl e ↦ inl (rw (e, skip_of) refl)
    | inr (ws, e) ↦ elim (Bool-cases (words_eq (take (length ws) ts) ws)) [
      | inl same ↦
          inr (ws, e, words_eq_iff (take (length ws) ts) ws same, rw (e, same, skip_of) refl)
      | inr other ↦ inl (rw (e, other, skip_of) refl)
    ]
  ]

  -- The tokens that are skipped are arguments.
  skipped :
      (prefixes ts : List Text)
      → PlainWords prefixes
      → all (is_argument strip split is_word) (take (skip_of strip split is_word prefixes ts) ts)
        ≡ true
  unfolding PlainWords
  skipped [] ts h = unfold skip_of in refl
  skipped (q ∷ prefixes) ts h = elim (skip_of_cases q prefixes ts) [
    | inl e ↦
        subst (λ n. all (is_argument strip split is_word) (take n ts) ≡ true) (sym e)
          (skipped prefixes ts h.1)
    | inr (ws, found, same, e) ↦
        subst (λ n. all (is_argument strip split is_word) (take n ts) ≡ true) (sym e)
          (subst (λ us. all (is_argument strip split is_word) us ≡ true) (sym same) (h.0 ws found))
  ]

  check_tokens-All :
      (o : Option (List Text))
      → PlainWords allowed_cli_prefixes
      → check_tokens strip split is_word o ≡ true
      → (tokens : List Text) × (o ≡ some tokens)
        × All (λ t. is_argument strip split is_word t ≡ true) tokens
  unfolding check_tokens
  check_tokens-All none plain h = cc
  check_tokens-All (some tokens) plain h = (
    tokens,
    refl,
    all-All (is_argument strip split is_word) tokens (
        all-take-drop (is_argument strip split is_word)
          (skip_of strip split is_word allowed_cli_prefixes tokens) tokens
          (skipped allowed_cli_prefixes tokens plain) h),
  )

  -- An equation between the words of one text.
  plain_of :
      (q : Text) (vs : List Text)
      → split q ≡ some vs
      → all (is_argument strip split is_word) vs ≡ true
      → (ws : List Text) → split q ≡ some ws
      → all (is_argument strip split is_word) ws ≡ true
  plain_of q vs e h ws f = let same : vs ≡ ws = cc in rw (sym same) h

  module _ (shell : IsShell) where
    letters_plain :
        (t : Text)
        → all (λ c. leb 97 c && leb c 122) t ≡ true
        → all (is_path_char strip split is_word) t ≡ true
    letters_plain [] h = refl
    letters_plain (c ∷ t) h = ground (arith, shell.letters c, letters_plain t)

    word_plain :
        (c : ℕ) (t : Text)
        → all (λ c. leb 97 c && leb c 122) (c ∷ t) ≡ true
        → is_argument strip split is_word (c ∷ t) ≡ true
    word_plain c t h = ground (arith, letters_plain (c ∷ t))

    allowed_plain : PlainWords allowed_cli_prefixes
    unfolding PlainWords
    allowed_plain =
        let pytest : is_argument strip split is_word (codes "pytest") ≡ true =
          word_plain 112 (codes "ytest") refl in
        let python : is_argument strip split is_word (codes "python") ≡ true =
          word_plain 112 (codes "ython") refl in
        let unittest : is_argument strip split is_word (codes "unittest") ≡ true =
          word_plain 117 (codes "nittest") refl in
        (
          plain_of _ _ shell.pytest rw pytest refl,
          (
            plain_of _ _ shell.python_pytest rw (python, pytest) refl,
            (plain_of _ _ shell.python_unittest rw (python, unittest) refl, tt),
          ),
        )

    -- If `shlex.split` splits the three prefixes at their blanks and a to z are word characters:
    -- every word of a command that is accepted, its program included, starts with "-" or is a
    -- path of word characters and `./\:*-[]`, and the command has none of the blocked characters.
    pub validate_cli_command_sound :
        (command : Text)
        → validate_cli_command strip split is_word command ≡ true
        → (tokens : List Text) × (split (strip command) ≡ some tokens)
          × All (λ t. is_argument strip split is_word t ≡ true) tokens
          × (any is_blocked (strip command) ≡ false)
    unfolding validate_cli_command
    validate_cli_command_sound command h =
        let (fine, checked) =
          passed (any is_blocked (strip command))
            (any (λ p. starts_with p (strip command)) allowed_cli_prefixes)
            (check_tokens strip split is_word (split (strip command))) h in
        let (tokens, e, plain) = check_tokens-All (split (strip command)) allowed_plain checked in
        (tokens, e, plain, fine)

  one_token :
      (t : Text)
      → is_argument strip split is_word t ≡ true
      → check_tokens strip split is_word (some (t ∷ [])) ≡ true
  unfolding check_tokens
  one_token t h =
      all-drop_one (is_argument strip split is_word) t h
        (skip_of strip split is_word allowed_cli_prefixes (t ∷ []))

  -- One word that begins with "pytest", has no blocked character and only path characters, and that
  -- stripping and splitting leave as it is, is accepted, whatever program it names.
  pub validate_cli_command_admits :
      (suffix : Text)
      → let command = codes "pytest" ++ suffix in
        strip command ≡ command
        → split command ≡ some (command ∷ [])
        → any is_blocked suffix ≡ false
        → all (is_path_char strip split is_word) command ≡ true
        → validate_cli_command strip split is_word command ≡ true
  unfolding validate_cli_command check_tokens
  validate_cli_command_admits suffix same one fine path =
      rw (same, fine, one) (one_token (codes "pytest" ++ suffix) path)
