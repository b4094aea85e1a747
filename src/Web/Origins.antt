-- ===== src/Web/Origins.antt =====
-- The origins that are allowed, and the credentials.
use distributed_verification.Prelude.{
  ◌≡◌, refl, Bool, true, false, not, ◌&&◌, Option, none, some, Text, text_eq, any,
}
use distributed_verification.Runs.{truthy_text}
use distributed_verification.Web.{cors_from, star, cors_of}

not_self : (b : Bool) → (not b && b) ≡ false
not_self true = refl
not_self false = refl

cors_from-star :
    (strip : Text → Text) (origins : Option Text)
    → ((cors_from strip origins).allow_credentials
        && any (text_eq star) (cors_from strip origins).allowed_origins)
      ≡ false
cors_from-star strip none = refl
cors_from-star strip (some origins) =
    not_self (any (text_eq star) (cors_from strip (some origins)).allowed_origins)

-- Credentials are never allowed together with all origins.
pub cors_of-star :
    (strip : Text → Text) (variable : Text)
    → ((cors_of strip variable).allow_credentials
        && any (text_eq star) (cors_of strip variable).allowed_origins)
      ≡ false
unfolding cors_of
cors_of-star strip variable = cors_from-star strip (truthy_text (some (strip variable)))
