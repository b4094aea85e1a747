-- ===== src/CommandLine/Platform.antt =====
-- backend/cli.py: the commands on clients, resources, tests, metrics, and the administration.
-- Parameters: `str.lower`, and those of the handlers. The environment variable ADMIN_API_KEY of the
-- command is `none` if it is not set.
use distributed_verification.Prelude.{
  ℕ, ◌≡◌, refl, Bool, false, Option, none, some, List, [], ◌∷◌, Text, contains, text_eq, select, ℤ,
  pos,
}
use distributed_verification.Model.{Client, Resource, Db}
use distributed_verification.Access.{ok, ◌>>◌, verify_admin}
use distributed_verification.Clients.{ClientCreate, Drawn, register_client, create_resource}
use distributed_verification.Discovery.{SourceFile, TestItem, discover_tests}
use distributed_verification.Metrics.{Metrics, get_metrics}
use distributed_verification.Purge.{Purged}
use distributed_verification.Purge.Endpoint.{purge_old_data}
use distributed_verification.Runs.{truthy_text}
use distributed_verification.Startup.{Cleaned, cleanup_stale}
use distributed_verification.CommandLine.{Answer, refused, returned, answer, with_key, fetch}

-- The value of an answer, and the database behind the request.
abbrev pub looked_at {ℓ} : {A : Type ℓ} → Answer (A × Db) → Db → Option A × Db
looked_at (refused status) db = (none, db)
looked_at (returned status (a, after)) db = (fetch (returned status a), after)

unfoldable pub client_register :
    (Text → Text)
    → (Text → Text)
    → (Text → Text)
    → Drawn
    → Text
    → Option Text
    → Option Text
    → Db
    → Option Client × Db
unfolding register_client
client_register strip lower sql_lower drawn name email webhook db =
    let payload : ClientCreate = record {
      name = name;
      email = truthy_text email;
      webhook_url = truthy_text webhook;
    } in
    looked_at (returned 200 (register_client strip lower sql_lower drawn payload db)) db

unfoldable pub resource_create : Text → Db → Option Resource × Db
unfolding create_resource
resource_create name db = looked_at (answer 200 (create_resource name db)) db

-- `tests discover`, without a key.
unfoldable pub test_discover :
    (ℕ → Bool)
    → (Text → Text)
    → List SourceFile
    → (Text → List SourceFile)
    → Option Text
    → List TestItem
unfolding discover_tests
test_discover is_space lower files uploads pattern =
    let items = discover_tests is_space files uploads none in
    elim (truthy_text pattern) [
      | none ↦ items
      | some p ↦ select (λ (t : TestItem). contains (lower p) (lower t.nodeid)) items
    ]

-- `dashboard`: the request carries no key.
unfoldable pub dashboard : ℕ → Db → Option Metrics
unfolding get_metrics
dashboard now db = fetch (with_key none (λ key. get_metrics now key db))

-- `_admin_headers`: what the server reads as `x-admin-key`.
abbrev pub admin_header : Option Text → Text
admin_header none = []
admin_header (some key) = key

unfoldable pub admin_cleanup : Text → Option Text → ℕ → Db → Option Cleaned × Db
unfolding verify_admin cleanup_stale
admin_cleanup admin_key variable now db =
    let cleaned = cleanup_stale now db in
    looked_at
      (answer 200 (verify_admin admin_key (admin_header variable) >> ok (cleaned, cleaned.db))) db

-- The limit on the reports has its default.
unfoldable pub admin_purge :
    Text → Option Text → ℕ → ℤ → Db → List ℕ → Option (Purged × Purged) × Db
unfolding purge_old_data
admin_purge admin_key variable now days db dirs =
    elim (answer 200 (purge_old_data admin_key (admin_header variable) now days (pos 50) db dirs)) [
      | refused status ↦ (none, db)
      | returned status (old, pruned) ↦ (fetch (returned status (old, pruned)), pruned.db)
    ]

-- On a server with an administrator's key, a command with another key, or with none, aborts and
-- changes nothing.
pub admin_refused :
    (c : ℕ) (key : Text) (variable : Option Text) (now : ℕ) (days : ℤ) (db : Db) (dirs : List ℕ)
    → text_eq (admin_header variable) (c ∷ key) ≡ false
    → (admin_cleanup (c ∷ key) variable now db ≡ (none, db))
      × (admin_purge (c ∷ key) variable now days db dirs ≡ (none, db))
unfolding admin_cleanup admin_purge verify_admin purge_old_data
admin_refused c key variable now days db dirs other =
    (rw other refl, rw (admin_purge, purge_old_data, other) refl)
