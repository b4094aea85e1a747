-- ===== src/Web.antt =====
-- backend/app/main.py: RequestSizeLimitMiddleware and the origins that CORSMiddleware is
-- given. Parameters: `int` of a text, `none` if it raises ValueError, and `str.strip`.
pub mod Origins
use distributed_verification.Prelude.{
  ℕ, Bool, true, false, not, ◌&&◌, Option, none, some, List, [], ◌∷◌, map, Text, codes, text_eq,
  ltb, if◌then◌else◌, any, select, ℤ, pos, negsuc,
}
use distributed_verification.Access.{Result, raise, ok, too_large, internal}
use distributed_verification.Runs.{truthy_text}
use distributed_verification.CommandLine.{split_commas}

-- `n > limit` for a limit that is not negative.
abbrev pub exceeds : ℤ → ℕ → Bool
exceeds (pos n) limit = ltb limit n
exceeds (negsuc n) limit = false

-- `dispatch`, by the header content-length and what the application answers. An exception becomes
-- the answer of global_exception_handler.
unfoldable pub dispatch {ℓ} :
    (Text → Option ℤ) → ℕ → {A : Type ℓ} → Option Text → Result A → Result A
dispatch int max_body content_length next = elim (truthy_text content_length) [
  | none ↦ next
  | some header ↦ elim (int header) [
    | none ↦ raise internal
    | some n ↦ if exceeds n max_body then raise too_large else next
  ]
]

pub record Cors : Type 0 where
  pub allowed_origins : List Text
  pub allow_credentials : Bool

abbrev pub is_given : Text → Bool
is_given [] = false
is_given (c ∷ t) = true

abbrev pub star : Text
star = codes "*"

-- By what CORS_ORIGINS has, if it is set.
abbrev pub cors_from : (Text → Text) → Option Text → Cors
cors_from strip none = record { allowed_origins = star ∷ []; allow_credentials = false }
cors_from strip (some origins) =
    let allowed = select is_given (map strip (split_commas [] origins)) in
    record { allowed_origins = allowed; allow_credentials = not (any (text_eq star) allowed) }

-- By the environment variable CORS_ORIGINS, which reads as the empty text if it is not set.
unfoldable pub cors_of : (Text → Text) → Text → Cors
unfolding split_commas
cors_of strip variable = cors_from strip (truthy_text (some (strip variable)))
