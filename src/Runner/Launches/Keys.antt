-- ===== src/Runner/Launches/Keys.antt =====
-- The directory names of the files of a run.
use distributed_verification.Prelude.{
  ◌≡◌, refl, ap, true, ◌&&◌, [], ◌∷◌, ◌++◌, Text, codes, ◌==◌, if◌then◌else◌, Bool-cases, inl, inr,
}
use distributed_verification.Runner.Launches.{replace_from, safe_file_key}

replace_slash :
    (x y : Text)
    → replace_from (codes "/") (codes "__") 0 (x ++ b'/' ∷ y)
      ≡ replace_from (codes "/") (codes "__") 0 (x ++ b'_' ∷ b'_' ∷ y)
unfolding replace_from
replace_slash [] y = refl
replace_slash (c ∷ x) y =
    let hit = b'/' == c && true in
    ap (λ t. (if hit then codes "__" else c ∷ []) ++ t)
      (elim (Bool-cases hit) [
        | inl e ↦ rw e (replace_slash x y)
        | inr e ↦ rw e (replace_slash x y)
      ])

-- Two paths that differ only in a slash, which is two underscores in the other, have one directory.
pub safe_file_key_collides :
    (x y : Text) → safe_file_key (x ++ b'/' ∷ y) ≡ safe_file_key (x ++ b'_' ∷ b'_' ∷ y)
unfolding safe_file_key
safe_file_key_collides x y = rw (replace_slash x y) refl
