-- ===== src/Cli.antt =====
-- backend/app/api/routes.py: _validate_cli_command and execute_cli_command. `str.strip`, the word
-- characters of a regular expression and `shlex.split`, which is `none` where it raises, are
-- parameters.
pub mod Validation
pub mod Queued
pub mod Task
use distributed_verification.Prelude.{
  ℕ, Bool, true, false, not, ◌&&◌, ◌||◌, Option, none, some, List, [], ◌∷◌, ◌++◌, Text, codes,
  text_eq, starts_with, ◌==◌, if◌then◌else◌, length, take, drop, any, all,
}
use distributed_verification.Model.{Db}
use distributed_verification.Access.{
  Result, ok, raise, bad_request, not_found, ◌>>=◌, ◌>>◌, require, or_raise, find_client,
}
use distributed_verification.Runs.{truthy_text, new_run, add_run, admit}

abbrev pub allowed_cli_prefixes : List Text
allowed_cli_prefixes = codes "pytest" ∷ codes "python -m pytest" ∷ codes "python -m unittest" ∷ []

-- The characters of `[;|&`$<>\n\r]`.
abbrev pub is_blocked : ℕ → Bool
is_blocked c = any (λ d. d == c) (10 ∷ 13 ∷ codes ";|&`$<>")

-- Lists of texts, compared with `==`.
abbrev pub words_eq : List Text → List Text → Bool
words_eq [] [] = true
words_eq [] (w ∷ ws) = false
words_eq (v ∷ vs) [] = false
words_eq (v ∷ vs) (w ∷ ws) = text_eq v w && words_eq vs ws

abbrev pub is_empty : Text → Bool
is_empty [] = true
is_empty (c ∷ t) = false

module _ (strip : Text → Text) (split : Text → Option (List Text)) (is_word : ℕ → Bool) where
  -- A character of `[\w./\\:*\-\[\]]`.
  abbrev pub is_path_char : ℕ → Bool
  is_path_char c = is_word c || any (λ d. d == c) (codes "./\\:*-[]")

  -- A flag, or a path of at least one character.
  abbrev pub is_argument : Text → Bool
  is_argument token =
      starts_with (codes "-") token || not (is_empty token) && all is_path_char token

  -- The number of tokens that the first prefix with equal tokens has.
  unfoldable pub skip_of : List Text → List Text → ℕ
  skip_of [] tokens = 0
  skip_of (prefix ∷ prefixes) tokens =
      let later = skip_of prefixes tokens in
      elim (split prefix) [
        | none ↦ later
        | some words ↦ if words_eq (take (length words) tokens) words then length words else later
      ]

  unfoldable pub check_tokens : Option (List Text) → Bool
  unfolding skip_of
  check_tokens none = false
  check_tokens (some tokens) = all is_argument (drop (skip_of allowed_cli_prefixes tokens) tokens)

  unfoldable pub validate_cli_command : Text → Bool
  unfolding check_tokens
  validate_cli_command command =
      let cmd = strip command in
      if any is_blocked cmd
      then false
      else (if not (any (λ p. starts_with p cmd) allowed_cli_prefixes)
          then false
          else check_tokens (split cmd))

  -- The result has the run, and the runs whose commands are scheduled.
  unfoldable pub execute_cli_command :
      ℕ → Text → Option Text → Text → Option Text → Db → Result (ℕ × List ℕ × Db)
  unfolding validate_cli_command new_run admit
  execute_cli_command now today client_key command_text resource_name db = do
    key ← or_raise (truthy_text client_key) bad_request
    let command = strip command_text
    require (not (is_empty command)) bad_request
    require (validate_cli_command command) bad_request
    client ← or_raise (find_client key db) not_found
    let run = new_run now today client [] none none (some (codes "CLI: " ++ command)) db
    let (tasks, after) = admit now run resource_name (add_run run db)
    ok (run.id, tasks, after)
