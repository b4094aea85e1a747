-- ===== src/Prelude/Dicts.antt =====
-- A dictionary with texts for keys, as the list of its items in the order of insertion.
use mathlib.Core.Path.{◌≡◌, refl}
use mathlib.Core.List.{List, [], ◌∷◌}
use native.Mathlib.Omega.{arith}
use distributed_verification.Prelude.Tests.{if◌then◌else◌}
use distributed_verification.Prelude.Texts.{Text, text_eq, text_eq_iff}

module _ {ℓ} {V : Type ℓ} where
  -- `d.get(key, default)`.
  unfoldable pub get_or : V → Text → List (Text × V) → V
  get_or default key [] = default
  get_or default key ((k, v) ∷ d) = if text_eq k key then v else get_or default key d

  -- `d[key] = v`.
  unfoldable pub put : Text → V → List (Text × V) → List (Text × V)
  put key v [] = (key, v) ∷ []
  put key v ((k, w) ∷ d) = if text_eq k key then (k, v) ∷ d else (k, w) ∷ put key v d

  pub get_or-put :
      (default : V) (key j : Text) (v : V) (d : List (Text × V))
      → get_or default j (put key v d) ≡ (if text_eq key j then v else get_or default j d)
  unfolding get_or put
  get_or-put default key j v [] = refl
  get_or-put default key j v ((k, w) ∷ d) =
      ground
        (arith, text_eq_iff k key, text_eq_iff key j, text_eq_iff k j, get_or-put default key j v d)
