-- ===== src/Upload.antt =====
-- backend/app/api/routes.py, upload_tests: the check of the names in an uploaded archive, and the
-- flattening of an archive with one top directory. A name is the list of its code points. What
-- `ZipFile.extractall` writes for other archives is a parameter.
pub mod Paths
pub mod Endpoints
pub mod Ids
use distributed_verification.Prelude.{
  ℕ, suc, ◌*◌, Bool, true, false, not, ◌&&◌, ◌||◌, List, [], ◌∷◌, ◌++◌, map, Text, codes, text_eq,
  starts_with, contains, ◌==◌, ltb, if◌then◌else◌, length, drop, any, all, select,
}
use distributed_verification.Access.{Result, ok, raise, bad_request, ◌>>=◌, ◌>>◌, require}

pub record ZipInfo : Type 0 where
  pub filename : Text
  pub file_size : ℕ

abbrev pub slash : Text
slash = codes "/"

abbrev pub dots : Text
dots = codes ".."

-- `name.endswith("/")`, which is `info.is_dir()` too.
abbrev pub ends_with_slash : Text → Bool
ends_with_slash [] = false
ends_with_slash (c ∷ []) = c == b'/'
ends_with_slash (c ∷ d ∷ t) = ends_with_slash (d ∷ t)

-- The checks on one entry; MAX_UPLOAD_SIZE is the first argument.
abbrev pub is_accepted : ℕ → ZipInfo → Bool
is_accepted max_upload_size info =
    not (starts_with slash info.filename || contains dots info.filename)
    && not (ltb (max_upload_size * 3) info.file_size)

-- `entry.split("/")[0]`.
unfoldable pub top_part : Text → Text
top_part [] = []
top_part (c ∷ t) = if c == b'/' then [] else c ∷ top_part t

abbrev pub add_text : Text → List Text → List Text
add_text t ts = if any (λ u. text_eq u t) ts then ts else ts ++ t ∷ []

-- The set of the top directories; none at all if a file lies at the root.
unfoldable pub top_dirs : List Text → List Text → List Text
unfolding top_part
top_dirs acc [] = acc
top_dirs acc (entry ∷ entries) =
    let more = top_dirs (add_text (top_part entry) acc) entries in
    if contains slash entry then more else []

unfoldable pub archive_dirs : List ZipInfo → List Text
unfolding top_dirs
archive_dirs infos =
    top_dirs [] (select (λ n. not (ends_with_slash n)) (map (λ i. i.filename) infos))

-- `upload_dir / name`: an absolute name replaces the directory.
abbrev pub join : Text → Text → Text
join dir [] = dir
join dir (c ∷ name) = if c == b'/' then c ∷ name else dir ++ b'/' ∷ c ∷ name

-- The names below the wrapper, without it.
unfoldable pub flatten : Text → List Text → List Text
flatten wrapper [] = []
flatten wrapper (name ∷ names) =
    let rest = flatten wrapper names in
    let target = drop (length wrapper) name in
    if starts_with wrapper name && not (text_eq target []) then target ∷ rest else rest

module _ (extractall : Text → List ZipInfo → List Text) where
  unfoldable pub write_all : Text → List ZipInfo → List Text → List Text
  unfolding flatten
  write_all upload_dir infos (top ∷ []) =
      map (join upload_dir) (flatten (top ++ slash) (map (λ i. i.filename) infos))
  write_all upload_dir infos [] = extractall upload_dir infos
  write_all upload_dir infos (a ∷ b ∷ dirs) = extractall upload_dir infos

  -- The paths of the files and directories that the archive is written to.
  unfoldable pub extract : ℕ → Text → List ZipInfo → Result (List Text)
  unfolding archive_dirs write_all
  extract max_upload_size upload_dir infos = do
    require (all (is_accepted max_upload_size) infos) bad_request
    ok (write_all upload_dir infos (archive_dirs infos))
