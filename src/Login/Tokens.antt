-- ===== src/Login/Tokens.antt =====
-- backend/app/auth.py: the token that login returns, and get_current_client. Parameters:
-- `jwt.encode`, and `jwt.decode` at a time, which is `none` where it raises.
use distributed_verification.Prelude.{
  ℕ, ◌+◌, ◌≤◌, ◌<◌, ◌≡◌, refl, ap, ◌∙◌, inl, inr, arith, Bool, Option, none, some, List, Text,
  text_eq, text_eq_iff, leb, length, select, test-first, Bool-cases,
}
use distributed_verification.Model.{Client, Db}
use distributed_verification.Access.{
  unauthorized, too_many, Result, raise, ok, ◌>>=◌, or_raise, find_client,
}
use distributed_verification.Login.{
  Attempts, check_password, authenticate_client, conclude, login, login_rate_limit, is_recent,
  attempts_of,
}

-- The claims of a token.
pub record Claims : Type 0 where
  pub sub : Option Text
  pub exp : ℕ

-- `timedelta(minutes=15)`, in seconds.
abbrev pub default_expiry : ℕ
default_expiry = 900

abbrev expiry : Option ℕ → ℕ
expiry none = default_expiry
expiry (some seconds) = seconds

module _ (encode : Claims → Text) where
  unfoldable pub create_access_token : ℕ → Text → Option ℕ → Text
  create_access_token now sub expires_delta =
      encode (record { sub = some sub; exp = now + expiry expires_delta })

  -- What login returns for the client that it has found: no `expires_delta` is given.
  abbrev pub login_token : ℕ → Client → Text
  login_token now client = create_access_token now client.client_key none

module _ (decode : ℕ → Text → Option Claims) where
  unfoldable pub get_current_client : ℕ → Text → Db → Result Client
  get_current_client now token db = do
    payload ← or_raise (decode now token) unauthorized
    client_key ← or_raise payload.sub unauthorized
    or_raise (find_client client_key db) unauthorized

-- A token can be read until it expires, and not afterwards.
pub record JwtLaws (encode : Claims → Text) (decode : ℕ → Text → Option Claims) : Type 0 where
  pub valid : (t : ℕ) (c : Claims) → t ≤ c.exp → decode t (encode c) ≡ some c
  pub expired : (t : ℕ) (c : Claims) → c.exp < t → decode t (encode c) ≡ none

find_client_again :
    (key : Text) (db : Db) {c : Client}
    → find_client key db ≡ some c
    → find_client c.client_key db ≡ some c
find_client_again key db {c} e =
    let test = test-first (λ (d : Client). text_eq d.client_key key) db.clients e in
    let same : c.client_key ≡ key = (text_eq_iff c.client_key key).0 test in
    ap (λ k. find_client k db) same ∙ e

module _ (verify_password : Text → Text → Bool) where
  check_password-found :
      (password : Text) (found : Option Client) {c : Client}
      → check_password verify_password password found ≡ some c
      → found ≡ some c
  unfolding check_password
  check_password-found password none e = e
  check_password-found password (some d) e = ground arith

  conclude-found :
      (key : Text) (found : Option Client) (attempts after : Attempts) {c : Client}
      → conclude verify_password key found attempts ≡ (ok c, after)
      → found ≡ some c
  unfolding conclude
  conclude-found key none attempts after e = cc
  conclude-found key (some d) attempts after e = cc

  -- A client that login returns is the one that its own key finds.
  login-found :
      (now : ℕ) (key password : Text) (db : Db) (attempts after : Attempts) {c : Client}
      → login verify_password now key password db attempts ≡ (ok c, after)
      → find_client c.client_key db ≡ some c
  unfolding login authenticate_client conclude
  login-found now key password db attempts after {c} e =
      elim (Bool-cases (leb login_rate_limit (length recent))) [
        | inl limited ↦ absurd_case (rw limited at e)
        | inr free ↦ find_client_again key db (
            check_password-found password (find_client key db)
              (conclude-found key _ _ after (rw free at e)))
      ]
    where
      recent : List ℕ
      recent = select (is_recent now) (attempts_of key attempts)

      absurd_case :
          {A : Type 0} {m : Attempts}
          → ◌≡◌ {A = Result Client × Attempts} (raise too_many, m) (ok c, after)
          → A
      absurd_case k = cc

-- After a login that succeeds, its token stands for the client that logged in during 15 minutes, and
-- for nobody afterwards, as long as the database holds the same.
pub get_current_client-login :
    (encode : Claims → Text) (decode : ℕ → Text → Option Claims)
    (verify_password : Text → Text → Bool) (now t : ℕ) (key password : Text) (db : Db)
    (attempts after : Attempts) (client : Client)
    → JwtLaws encode decode
    → login verify_password now key password db attempts ≡ (ok client, after)
    → (t ≤ now + 900 → get_current_client decode t (login_token encode now client) db ≡ ok client)
      × (now + 900 < t
          → get_current_client decode t (login_token encode now client) db ≡ raise unauthorized)
unfolding get_current_client create_access_token
get_current_client-login encode decode verify_password now t key password db attempts after client
      laws e =
    let claims : Claims = record { sub = some client.client_key; exp = now + 900 } in
    let found = login-found verify_password now key password db attempts after e in
    (
      λ early. rw (laws.valid t claims early) (rw found refl),
      λ late. rw (laws.expired t claims late) refl,
    )
