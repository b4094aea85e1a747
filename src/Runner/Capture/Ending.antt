-- ===== src/Runner/Capture/Ending.antt =====
-- The loop of capture_test_run comes to an end.
use distributed_verification.Prelude.{
  ℕ, ◌≡◌, refl, inl, inr, true, ◌||◌, Option, some, List, [], ◌∷◌, map, arith, Text, ltb, any, all,
  Bool-cases, Option-cases,
}
use distributed_verification.Model.{Run, Db}
use distributed_verification.Queue.{find_run}
use distributed_verification.Runner.Processes.{Runtime}
use distributed_verification.Runner.Launches.{Launch, launches}
use distributed_verification.Runner.Capture.{
  Round, Loop, is_done, run_round, capture_loop, Surroundings, Attempt, before_loop, start_loop,
  end_loop, capture_with, capture_test_run,
}

-- One round that begins past the timeout is enough for the loop to end.
capture_loop_ends :
    (strip : Text → Text) (timeout : ℕ) (nids : List Text) (run_id : ℕ) (client_id : Option ℕ)
    (tags : List Text) (rounds : List Round) (s : Loop)
    → any (λ r. ltb timeout r.elapsed) rounds ≡ true
    → (after : Loop) × (capture_loop strip timeout nids run_id client_id tags rounds s ≡ some after)
unfolding capture_loop
capture_loop_ends strip timeout nids run_id client_id tags [] s late = cc
capture_loop_ends strip timeout nids run_id client_id tags (r ∷ rs) s late =
    let after = run_round strip timeout nids run_id client_id tags s r in
    elim (Bool-cases (is_done tags r || ltb timeout r.elapsed)) [
      | inl stop ↦ (after, rw stop)
      | inr go_on ↦
          rw go_on
            (capture_loop_ends strip timeout nids run_id client_id tags rs after (ground arith))
    ]

module _ (env : Surroundings) where
  capture_with_ends :
      (now : ℕ) (run : Run) (selected_tests : List Text) (ls : List Launch) (w : Db × Runtime)
      → any (λ r. ltb env.timeout r.elapsed) env.rounds ≡ true
      → (result : Attempt) × (capture_with env now run selected_tests ls w ≡ some result)
  unfolding capture_with end_loop
  capture_with_ends now run selected_tests ls (db, rt) late =
      elim (Bool-cases (all (λ l. env.starts l.tag) ls)) [
        | inl up ↦
            let start = start_loop env run ls (before_loop env now run selected_tests db, rt) in
            let (after, e) =
              capture_loop_ends env.strip env.timeout (env.as_set selected_tests) run.id
                (some run.client_id) (map (λ l. l.tag) ls) env.rounds start late in
            rw (up, e) (_, refl)
        | inr down ↦ rw down (_, refl)
      ]

  -- If a round of the loop comes after the timeout, the capture ends, by a return or an exception.
  pub capture_test_run_ends :
      (now run_id : ℕ) (selected_tests : List Text) (w : Db × Runtime)
      → any (λ r. ltb env.timeout r.elapsed) env.rounds ≡ true
      → (result : Attempt) × (capture_test_run env now run_id selected_tests w ≡ some result)
  unfolding capture_test_run
  capture_test_run_ends now run_id selected_tests (db, rt) late =
      elim (Option-cases (find_run run_id db)) [
        | inl gone ↦ rw (gone, capture_test_run) (_, refl)
        | inr (run, there) ↦
            rw (there, capture_test_run)
              (capture_with_ends now run selected_tests
                (launches env.exists env.test_root selected_tests) (db, rt) late)
      ]
