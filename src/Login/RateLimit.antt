-- ===== src/Login/RateLimit.antt =====
-- The rate limit of login.
use mathlib.Core.Path.{subst}
use distributed_verification.Prelude.{
  ℕ, ◌≤◌, ◌≡◌, refl, sym, inl, inr, Bool, true, false, Option, none, some, List, [], ◌∷◌, ◌++◌,
  arith, Text, text_eq, text_eq_iff, text_eq_refl, ◌∙◌, ◌⊎◌, ◌<◌, leb, if◌then◌else◌, Bool-cases,
  length, length-append, select, count, count-select,
}
use distributed_verification.Model.{Client, Db}
use distributed_verification.Access.{Result, ok, raise, too_many, unauthorized}
use distributed_verification.Login.{
  Attempts, attempts_of, set_attempts, pop_attempts, is_recent, login_rate_limit,
  authenticate_client, conclude, login,
}

-- No key has more attempts on record than the limit.
abbrev pub IsLimited : Attempts → Type 0
IsLimited attempts = (key : Text) → length (attempts_of key attempts) ≤ login_rate_limit

pub attempts_of-set_attempts :
    (key j : Text) (times : List ℕ) (m : Attempts)
    → attempts_of j (set_attempts key times m) ≡ (if text_eq key j then times else attempts_of j m)
unfolding attempts_of set_attempts
attempts_of-set_attempts key j times [] = refl
attempts_of-set_attempts key j times ((k, old) ∷ m) = ground (
  arith,
  text_eq_iff k key,
  text_eq_iff key j,
  text_eq_iff k j,
  attempts_of-set_attempts key j times m,
)

set_attempts-IsLimited :
    (key : Text) (times : List ℕ) (m : Attempts)
    → length times ≤ login_rate_limit
    → IsLimited m
    → IsLimited (set_attempts key times m)
set_attempts-IsLimited key times m few h j =
    rw (attempts_of-set_attempts key j times m) (ground (arith, h j))

attempts_of-pop_attempts :
    (key j : Text) (m : Attempts)
    → attempts_of j (pop_attempts key m) ≡ (if text_eq key j then [] else attempts_of j m)
unfolding attempts_of pop_attempts
attempts_of-pop_attempts key j [] = ground arith
attempts_of-pop_attempts key j ((k, old) ∷ m) =
    ground (
      arith,
      text_eq_iff k key,
      text_eq_iff key j,
      text_eq_iff k j,
      attempts_of-pop_attempts key j m,
    )

pop_attempts-IsLimited : (key : Text) (m : Attempts) → IsLimited m → IsLimited (pop_attempts key m)
pop_attempts-IsLimited key m h j = rw (attempts_of-pop_attempts key j m) (ground (arith, h j))

conclude-IsLimited :
    (verify_password : Text → Text → Bool) (key : Text) (client : Option Client) (m : Attempts)
    → IsLimited m
    → IsLimited (conclude verify_password key client m).1
unfolding conclude
conclude-IsLimited verify_password key none m h = h
conclude-IsLimited verify_password key (some client) m h = pop_attempts-IsLimited key m h

count-le-length : (p : ℕ → Bool) (ts : List ℕ) → count p ts ≤ length ts
count-le-length p [] = omega arith
count-le-length p (t ∷ ts) = ground (arith, count-le-length p ts)

module _ (verify_password : Text → Text → Bool) (now : ℕ) (key password : Text) (db : Db)
    (m : Attempts) where
  abbrev pub recent : List ℕ
  recent = select (is_recent now) (attempts_of key m)

  -- A login attempt, whatever comes of it, leaves no client key with more than five attempts on
  -- record, if none had more before.
  pub login-IsLimited : IsLimited m → IsLimited (login verify_password now key password db m).1
  unfolding login
  login-IsLimited h = elim (Bool-cases (leb login_rate_limit (length recent))) [
    | inl full ↦ rw full (
        set_attempts-IsLimited key recent m
          (omega (
            arith,
            count-select (is_recent now) (attempts_of key m),
            count-le-length (is_recent now) (attempts_of key m),
            h key,
          ))
          h)
    | inr room ↦ rw room (
        conclude-IsLimited verify_password key (authenticate_client verify_password key password db)
          _
          (set_attempts-IsLimited key (recent ++ now ∷ []) m
            (ground (arith, length-append recent (now ∷ []))) h))
  ]

  -- What a login comes to, by the number of attempts inside the window and the password check.
  abbrev pub LoginCases : Result Client × Attempts → Type 0
  LoginCases (outcome, after) =
      ((5 ≤ length recent) × (outcome ≡ raise too_many) × (attempts_of key after ≡ recent))
      ⊎ ((length recent < 5)
          × (authenticate_client verify_password key password db ≡ none)
          × (outcome ≡ raise unauthorized)
          × (attempts_of key after ≡ recent ++ now ∷ []))
      ⊎ ((client : Client) × (length recent < 5)
          × (authenticate_client verify_password key password db ≡ some client)
          × (outcome ≡ ok client)
          × (attempts_of key after ≡ []))

  tried : Option Client → Result Client × Attempts
  unfolding conclude
  tried client = conclude verify_password key client (set_attempts key (recent ++ now ∷ []) m)

  login-full :
      leb login_rate_limit (length recent) ≡ true
      → login verify_password now key password db m ≡ (raise too_many, set_attempts key recent m)
  unfolding login
  login-full full = rw full refl

  login-room :
      (client : Option Client)
      → leb login_rate_limit (length recent) ≡ false
      → authenticate_client verify_password key password db ≡ client
      → login verify_password now key password db m ≡ tried client
  unfolding login tried
  login-room client room found = rw (room, found) refl

  tried_cases :
      (client : Option Client)
      → length recent < 5
      → authenticate_client verify_password key password db ≡ client
      → LoginCases (tried client)
  unfolding tried
  tried_cases none few found = inr (
      inl (
        few,
        found,
        refl,
        attempts_of-set_attempts key key (recent ++ now ∷ []) m ∙ rw (text_eq_refl key) refl,
      ))
  tried_cases (some client) few found = inr (
      inr (
        client,
        few,
        found,
        refl,
        attempts_of-pop_attempts key key (set_attempts key (recent ++ now ∷ []) m)
            ∙ rw (text_eq_refl key) refl,
      ))

  -- With five attempts inside the window every password is refused; with fewer the outcome is that
  -- of the password check, and the attempts on record for the key are cleared if it succeeds, and
  -- else are those inside the window with the new one.
  pub login_cases : LoginCases (login verify_password now key password db m)
  login_cases = elim (Bool-cases (leb login_rate_limit (length recent))) [
    | inl full ↦ subst LoginCases (sym (login-full full)) (
        inl (
          ground arith,
          refl,
          attempts_of-set_attempts key key recent m ∙ rw (text_eq_refl key) refl,
        ))
    | inr room ↦
        let found = authenticate_client verify_password key password db in
        subst LoginCases (sym (login-room found room refl)) (tried_cases found (ground arith) refl)
  ]
