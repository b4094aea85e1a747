-- ===== src/Notifications/Sent.antt =====
-- What a client is told when the capture of its run ends.
use distributed_verification.Prelude.{ℕ, ◌≡◌, Option, none, some, List, [], ◌∷◌, ◌++◌, Text, codes}
use distributed_verification.Model.{RunStatus, Client, Run}
use distributed_verification.Notifications.{Notice, by_email, by_webhook, status_text}

abbrev pub recipient : Notice → Text
recipient (by_email m) = m.to
recipient (by_webhook w) = w.url

-- An address that is given and not empty.
abbrev pub given : Option Text → List Text
given none = []
given (some []) = []
given (some (c ∷ t)) = (c ∷ t) ∷ []

module _ (title : Text → Text) (shown_time : Option ℕ → Text) (isoformat : ℕ → Text) where
  -- A notice that tells how and when the run ended.
  abbrev pub Tells : Client → ℕ → RunStatus → ℕ → Notice → Type 0
  Tells client run_id status now (by_email m) =
      m.subject ≡ codes "Test Run " ++ title (status_text status) ++ codes " - " ++ client.name
  Tells client run_id status now (by_webhook w) =
      (w.run_id ≡ run_id) × (w.status ≡ status) × (w.finished_at ≡ some (isoformat now))

  abbrev ended_run : RunStatus → ℕ → Run → Run
  ended_run status now run = record run { status = status; finished_at = some now }
