-- ===== src/Runner/Processes.antt =====
-- runner.py: _active_runs and _cancelled_runs, with cancel_run, cancel_run_file, get_active_files.
-- A process is its file tag and its exit, absent while it runs.
use distributed_verification.Prelude.{
  ℕ, suc, Bool, true, false, Option, none, some, List, [], ◌∷◌, ◌++◌, map, Text, text_eq, ◌==◌,
  if◌then◌else◌, first, select, delete, any,
}

-- A non-negative return code, or a negative one by its signal.
pub data Exit : Type 0 where
  code : ℕ → Exit
  signal : ℕ → Exit

pub record Proc : Type 0 where
  pub tag : Text
  pub returncode : Option Exit

pub record ActiveRun : Type 0 where
  pub run_id : ℕ
  pub procs : List Proc

pub record Runtime : Type 0 where
  pub active : List ActiveRun
  pub cancelled : List ℕ

-- `proc.poll() is None`.
abbrev pub is_alive : Proc → Bool
is_alive p = elim p.returncode [ none ↦ true | some e ↦ false ]

-- `_active_runs.get(run_id, {})`.
abbrev pub procs_of : ℕ → Runtime → List Proc
procs_of run_id rt = elim (first (select (λ (a : ActiveRun). a.run_id == run_id) rt.active)) [
  | none ↦ []
  | some a ↦ a.procs
]

-- Membership in, and addition to, a set of ids.
abbrev pub mem_id : ℕ → List ℕ → Bool
mem_id n ids = any (λ i. i == n) ids

abbrev pub add_id : ℕ → List ℕ → List ℕ
add_id n ids = if mem_id n ids then ids else ids ++ n ∷ []

-- The number of processes that the loop of `cancel_run` kills.
pub count_killed : List Proc → ℕ
count_killed [] = 0
count_killed (p ∷ ps) = let rest = count_killed ps in if is_alive p then suc rest else rest

unfoldable pub cancel_run : ℕ → Runtime → ℕ × Runtime
unfolding count_killed
cancel_run run_id rt = (
  count_killed (procs_of run_id rt),
  record {
    active = delete (λ a. a.run_id == run_id) rt.active;
    cancelled = add_id run_id rt.cancelled;
  },
)

pub data FileCancel : Type 0 where
  killed already_finished not_found : FileCancel

-- `run_procs.pop(file_tag)`.
abbrev pub drop_proc : ℕ → Text → Runtime → Runtime
drop_proc run_id tag rt = record rt {
  active =
      map
        (λ a.
          if a.run_id == run_id
          then record a { procs = delete (λ p. text_eq p.tag tag) a.procs }
          else a)
        rt.active;
}

unfoldable pub cancel_run_file : ℕ → Text → Runtime → FileCancel × Runtime
cancel_run_file run_id tag rt =
    elim (first (select (λ (p : Proc). text_eq p.tag tag) (procs_of run_id rt))) [
      | none ↦ (not_found, rt)
      | some p ↦ if is_alive p then (killed, drop_proc run_id tag rt) else (already_finished, rt)
    ]

unfoldable pub get_active_files : ℕ → Runtime → List Text
get_active_files run_id rt = map (λ p. p.tag) (select is_alive (procs_of run_id rt))
