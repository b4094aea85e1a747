-- ===== src/Notifications.antt =====
-- backend/app/services/notifications.py: the messages of NotificationService, which capture_test_run
-- and capture_cli_run send at their end. Their sending, whose exceptions are caught and logged, is
-- left out. Parameters: `str.title`, `str` and `isoformat` of a time.
pub mod Sent
use distributed_verification.Prelude.{
  ℕ, Bool, Option, none, some, List, [], ◌∷◌, ◌++◌, Text, codes, ◌==◌, first, select,
}
use distributed_verification.Model.{RunStatus, Client, Run, Db}
use distributed_verification.Runs.{truthy_text}
use distributed_verification.Runs.Naming.{decimal}

pub record Email : Type 0 where
  pub to : Text
  pub subject : Text
  pub body : Text

pub record Webhook : Type 0 where
  pub url : Text
  pub run_id : ℕ
  pub run_name : Option Text
  pub client_name : Text
  pub status : RunStatus
  pub selected_tests : List Text
  pub started_at : Option Text
  pub finished_at : Option Text
  pub note : Option Text

pub data Notice : Type 0 where
  by_email : Email → Notice
  by_webhook : Webhook → Notice

abbrev pub status_text : RunStatus → Text
status_text RunStatus.pending = codes "pending"
status_text RunStatus.queued = codes "queued"
status_text RunStatus.running = codes "running"
status_text RunStatus.completed = codes "completed"
status_text RunStatus.failed = codes "failed"
status_text RunStatus.cancelled = codes "cancelled"

-- `", ".join(tests)`.
abbrev pub comma_join : List Text → Text
comma_join [] = []
comma_join (t ∷ []) = t
comma_join (t ∷ u ∷ tests) = t ++ codes ", " ++ comma_join (u ∷ tests)

-- `run.run_name or f"#{run.id}"`.
abbrev pub run_display : Run → Text
run_display run = elim (truthy_text run.run_name) [
  | some name ↦ name
  | none ↦ codes "#" ++ decimal run.id
]

abbrev pub newline : Text
newline = 10 ∷ []

module _ (title : Text → Text) (shown_time : Option ℕ → Text) (isoformat : ℕ → Text) where
  unfoldable pub email_to : Client → Text → Run → Email
  unfolding decimal
  email_to client address run = record {
    to = address;
    subject = codes "Test Run " ++ title (status_text run.status) ++ codes " - " ++ client.name;
    body =
        newline
        ++ codes "Test run "
        ++ run_display run
        ++ codes " has "
        ++ status_text run.status
        ++ codes "."
        ++ newline
        ++ newline
        ++ codes "Client: "
        ++ client.name
        ++ newline
        ++ codes "Tests: "
        ++ comma_join run.selected_tests
        ++ newline
        ++ codes "Started: "
        ++ shown_time run.started_at
        ++ newline
        ++ codes "Finished: "
        ++ shown_time run.finished_at
        ++ newline
        ++ newline
        ++ codes "View details: http://localhost:8000/runs/"
        ++ decimal run.id
        ++ newline;
  }

  abbrev pub iso : Option ℕ → Option Text
  iso none = none
  iso (some time) = some (isoformat time)

  unfoldable pub webhook_to : Client → Text → Run → Webhook
  webhook_to client url run = record {
    url = url;
    run_id = run.id;
    run_name = run.run_name;
    client_name = client.name;
    status = run.status;
    selected_tests = run.selected_tests;
    started_at = iso run.started_at;
    finished_at = iso run.finished_at;
    note = run.note;
  }

  abbrev pub email_notices : Client → Run → List Notice
  email_notices client run = elim (truthy_text client.email) [
    | none ↦ []
    | some address ↦ by_email (email_to client address run) ∷ []
  ]

  abbrev pub webhook_notices : Client → Run → List Notice
  webhook_notices client run = elim (truthy_text client.webhook_url) [
    | none ↦ []
    | some url ↦ by_webhook (webhook_to client url run) ∷ []
  ]

  unfoldable pub notify_run_completion : Client → Run → List Notice
  unfolding email_to webhook_to
  notify_run_completion client run = email_notices client run ++ webhook_notices client run

  -- The end of capture_test_run, by the run as it is then: `db.get(Client, run.client_id)`.
  unfoldable pub notify_end : Run → Db → List Notice
  unfolding notify_run_completion
  notify_end run db = elim (first (select (λ (c : Client). c.id == run.client_id) db.clients)) [
    | none ↦ []
    | some client ↦ notify_run_completion client run
  ]
