-- ===== src/Login.antt =====
-- backend/app/api/routes.py: login, with the rate limit on the attempts of each client key, and
-- authenticate_client of backend/app/auth.py. The check of a password (bcrypt) is a parameter.
-- Times are seconds, as whole numbers.
pub mod RateLimit
pub mod Tokens
use distributed_verification.Prelude.{
  ℕ, suc, ◌+◌, ◌-◌, Bool, Option, none, some, List, [], ◌∷◌, ◌++◌, Text, text_eq, ltb, leb,
  if◌then◌else◌, length, select, delete,
}
use distributed_verification.Model.{Client, Db}
use distributed_verification.Access.{Result, ok, raise, too_many, unauthorized, find_client}

abbrev pub login_rate_limit : ℕ
login_rate_limit = 5

abbrev pub login_rate_window : ℕ
login_rate_window = 60

-- _login_attempts: the times of the attempts, by client key.
abbrev pub Attempts : Type 0
Attempts = List (Text × List ℕ)

-- A `defaultdict(list)`: a missing key reads as no attempts.
unfoldable pub attempts_of : Text → Attempts → List ℕ
attempts_of key [] = []
attempts_of key ((k, times) ∷ rest) = if text_eq k key then times else attempts_of key rest

unfoldable pub set_attempts : Text → List ℕ → Attempts → Attempts
set_attempts key times [] = (key, times) ∷ []
set_attempts key times ((k, old) ∷ rest) =
    if text_eq k key then (k, times) ∷ rest else (k, old) ∷ set_attempts key times rest

-- `_login_attempts.pop(client_key, None)`.
unfoldable pub pop_attempts : Text → Attempts → Attempts
pop_attempts key attempts = delete (λ (a : Text × List ℕ). text_eq a.0 key) attempts

-- `now - t < LOGIN_RATE_WINDOW`.
abbrev pub is_recent : ℕ → ℕ → Bool
is_recent now t = ltb now (t + login_rate_window)

module _ (verify_password : Text → Text → Bool) where
  -- The client with the key, if the password is right.
  unfoldable pub check_password : Text → Option Client → Option Client
  check_password password none = none
  check_password password (some client) =
      if verify_password password client.secret then some client else none

  unfoldable pub authenticate_client : Text → Text → Db → Option Client
  unfolding check_password
  authenticate_client client_key password db = check_password password (find_client client_key db)

  -- The outcome once the attempt is recorded: the client whose token is made, or a refusal.
  unfoldable pub conclude : Text → Option Client → Attempts → Result Client × Attempts
  unfolding pop_attempts
  conclude client_key none attempts = (raise unauthorized, attempts)
  conclude client_key (some client) attempts = (ok client, pop_attempts client_key attempts)

  unfoldable pub login : ℕ → Text → Text → Db → Attempts → Result Client × Attempts
  unfolding attempts_of set_attempts authenticate_client conclude
  login now client_key password db attempts =
      let recent = select (is_recent now) (attempts_of client_key attempts) in
      if leb login_rate_limit (length recent)
      then (raise too_many, set_attempts client_key recent attempts)
      else conclude client_key (authenticate_client client_key password db)
          (set_attempts client_key (recent ++ now ∷ []) attempts)
