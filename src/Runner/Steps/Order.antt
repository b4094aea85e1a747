-- ===== src/Runner/Steps/Order.antt =====
-- Which steps of a configuration run, and what comes of them.
use distributed_verification.Prelude.{Bool, true, false, not, List, [], ◌∷◌, if◌then◌else◌}
use distributed_verification.Model.{Step}
use distributed_verification.Runner.Steps.{
  Outcome, exited, timed_out, crashed, Event, step_line, step_passed, step_failed, step_started,
  is_fatal, is_zero_exit,
}

-- A step passes exactly if its process ends with code 0.
abbrev pub succeeds : Outcome → Bool
succeeds (exited code out err) = is_zero_exit code
succeeds timed_out = false
succeeds (crashed message) = false

-- The steps that a log says were started.
abbrev pub started_steps : List Event → List Step
started_steps [] = []
started_steps (step_started s ∷ es) = s ∷ started_steps es
started_steps (Event.config_missing n ∷ es) = started_steps es
started_steps (Event.started t n ∷ es) = started_steps es
started_steps (Event.step_line l t ∷ es) = started_steps es
started_steps (Event.step_timeout s ∷ es) = started_steps es
started_steps (Event.step_failed s c ∷ es) = started_steps es
started_steps (Event.step_passed s ∷ es) = started_steps es
started_steps (Event.step_error s t ∷ es) = started_steps es
started_steps (Event.finished b t ∷ es) = started_steps es

module _ (world : Step → Outcome) where
  -- The step lets the next one run.
  abbrev pub goes_on : Step → Bool
  goes_on s = if succeeds (world s) then true else not (is_fatal s.on_failure)

  -- The steps up to and with the first that does not let the next one run.
  abbrev pub until_fatal : List Step → List Step
  until_fatal [] = []
  until_fatal (s ∷ steps) = let rest = until_fatal steps in if goes_on s then s ∷ rest else s ∷ []
