-- ===== src/Tests/CliTests.antt =====
-- The theorems on commands at small inputs.
use distributed_verification.Prelude.{
  ℕ, ◌≡◌, refl, Bool, true, false, ◌&&◌, ◌||◌, Option, none, some, List, [], ◌∷◌, ◌++◌, All, Text,
  codes, arith, any, leb, ◌==◌, if◌then◌else◌,
}
use distributed_verification.Model.{RunStatus, Run, Db}
use distributed_verification.Queue.{find_run}
use distributed_verification.Cli.{
  is_argument, is_blocked, validate_cli_command, execute_cli_command,
}
use distributed_verification.Cli.Validation.{IsShell, validate_cli_command_sound}
use distributed_verification.Cli.Queued.{execute_cli_command_queues}
use distributed_verification.Tests.Samples.{make_run, entry, contended}

-- A text without blanks at its ends.
abbrev trim : Text → Text
trim t = t

abbrev push : ℕ → List Text → List Text
push c [] = (c ∷ []) ∷ []
push c (w ∷ ws) = (c ∷ w) ∷ ws

-- The words between single blanks.
abbrev words_of : Text → List Text
words_of [] = [] ∷ []
words_of (c ∷ t) = let more = words_of t in if c == 32 then [] ∷ more else push c more

abbrev split_words : Text → Option (List Text)
split_words t = some (words_of t)

abbrev is_letter : ℕ → Bool
is_letter c = leb 97 c && leb c 122 || c == 95

shell : IsShell trim split_words is_letter
shell = record {
  pytest = refl;
  python_pytest = refl;
  python_unittest = refl;
  letters = λ c h. ground arith;
}

validate_cli_command_sound_example :
    (tokens : List Text) × (split_words (codes "python -m pytest tests -v") ≡ some tokens)
    × All (λ t. is_argument trim split_words is_letter t ≡ true) tokens
    × (any is_blocked (codes "python -m pytest tests -v") ≡ false)
unfolding validate_cli_command
validate_cli_command_sound_example =
    validate_cli_command_sound trim split_words is_letter shell (codes "python -m pytest tests -v")
      refl

-- The run of a command that waits for the board.
abbrev cli_run : Run
cli_run = record (make_run 40 RunStatus.queued none) {
  run_name = some (codes "RUN-20240101-004");
  note = some (codes "CLI: pytest a.py");
  created_at = 50;
}

abbrev cli_queued : Db
cli_queued = record contended {
  runs = contended.runs ++ cli_run ∷ [];
  entries = contended.entries ++ entry 41 40 3 ∷ [];
  next_id = 42;
}

execute_cli_command_queues_example :
    (run : Run) × (find_run 40 cli_queued ≡ some run)
    × (run.status ≡ RunStatus.queued)
    × (run.selected_tests ≡ [])
unfolding execute_cli_command
execute_cli_command_queues_example =
    execute_cli_command_queues trim split_words is_letter 50 (codes "20240101") (some (codes "k1"))
      (codes "pytest a.py") (some (codes "board")) contended 40 cli_queued refl refl
