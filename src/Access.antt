-- ===== src/Access.antt =====
-- backend/app/api/routes.py, the guards of the endpoints: _resolve_client, _verify_run_owner and
-- verify_admin, with the errors that the endpoints raise.
use distributed_verification.Prelude.{
  ℕ, ◌≡◌, refl, Bool, true, false, Option, none, some, [], ◌∷◌, Text, text_eq, ◌==◌, first, select,
}
use distributed_verification.Model.{Client, Run, Db}
use distributed_verification.Queue.{find_run}

-- HTTPException, by its status code.
pub data HttpError : Type 0 where
  bad_request unauthorized forbidden not_found conflict too_large too_many internal : HttpError

-- What a handler comes to: it raises, or it returns a value.
pub data Result {ℓ} (A : Type ℓ) : Type ℓ where
  raise : HttpError → Result A
  ok : A → Result A

infixl 5 ◌>>=◌ ◌>>◌
-- The rest of a handler behind a call that may raise.
abbrev pub ◌>>=◌ {ℓ κ} : {X : Type ℓ} {Y : Type κ} → Result X → (X → Result Y) → Result Y
raise error >>= rest = raise error
ok value >>= rest = rest value

abbrev pub ◌>>◌ {ℓ κ} : {X : Type ℓ} {Y : Type κ} → Result X → Result Y → Result Y
check >> rest = check >>= λ value. rest

-- `if not test: raise`.
abbrev pub require : Bool → HttpError → Result (Unit {0})
require passed error = elim passed [ true ↦ ok tt | false ↦ raise error ]

abbrev pub or_raise {ℓ} : {A : Type ℓ} → Option A → HttpError → Result A
or_raise none e = raise e
or_raise (some a) e = ok a

-- `select(Client).where(Client.client_key == key)`, `first()`.
abbrev pub find_client : Text → Db → Option Client
find_client key db = first (select (λ (c : Client). text_eq c.client_key key) db.clients)

-- `if not client_key`: a missing key and an empty one alike.
abbrev pub given_key : Option Text → Option Text
given_key none = none
given_key (some []) = none
given_key (some (c ∷ key)) = some (c ∷ key)

unfoldable pub resolve_client : Option Text → Db → Result Client
resolve_client client_key db = do
  key ← or_raise (given_key client_key) unauthorized
  or_raise (find_client key db) unauthorized

unfoldable pub verify_run_owner : ℕ → Option Text → Db → Result Run
unfolding resolve_client
verify_run_owner run_id client_key db = do
  client ← resolve_client client_key db
  run ← or_raise (find_run run_id db) not_found
  require (run.client_id == client.id) forbidden
  ok run

-- `secrets.compare_digest` against ADMIN_API_KEY, `[]` if that is not configured; a header that is
-- absent reads as the empty text.
unfoldable pub verify_admin : Text → Text → Result (Unit {0})
verify_admin [] header = ok tt
verify_admin (c ∷ key) header = require (text_eq header (c ∷ key)) forbidden

-- A lookup that does not raise has found its row.
pub or_raise-eq-ok {ℓ} :
    {A : Type ℓ} (o : Option A) (e : HttpError) {a : A} → or_raise o e ≡ ok a → o ≡ some a
or_raise-eq-ok none e h = cc
or_raise-eq-ok (some a) e h = cc

module _ {ℓ κ} {X : Type ℓ} {Y : Type κ} where
  -- A handler that returns has returned from its first call.
  pub >>=-eq-ok :
      {y : Y} (call : Result X) (rest : X → Result Y)
      → (call >>= rest) ≡ ok y
      → (x : X) × (call ≡ ok x) × (rest x ≡ ok y)
  >>=-eq-ok (raise error) rest returned = cc
  >>=-eq-ok (ok value) rest returned = (value, refl, returned)
