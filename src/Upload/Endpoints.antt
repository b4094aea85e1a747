-- ===== src/Upload/Endpoints.antt =====
-- backend/app/api/routes.py: upload_tests, list_uploads and delete_upload. Parameters: the first 12
-- digits of the sha256 sum, `Path.stem`, `str.isalnum`, the folders of a client, and the test files
-- below a folder once some paths are written, with their lines if they can be read. An archive is
-- `none` if it is no ZIP file; other exceptions of the extraction, and the times of the folders, are
-- left out.
use distributed_verification.Prelude.{
  ℕ, Bool, true, false, not, ◌&&◌, ◌||◌, Option, none, some, List, [], ◌∷◌, ◌++◌, map, Text, codes,
  text_eq, ◌==◌, ltb, if◌then◌else◌, length, take, first, select, sort_by,
}
use distributed_verification.Model.{Client, Db}
use distributed_verification.Access.{
  Result, ok, bad_request, unauthorized, forbidden, not_found, too_large, ◌>>=◌, ◌>>◌, or_raise,
  require, find_client,
}
use distributed_verification.Discovery.{SourceFile, discover_nodeids_from_file}
use distributed_verification.Reports.Endpoints.Results.{ends_with}
use distributed_verification.Suites.Auto.{text_leb}
use distributed_verification.Upload.{ZipInfo, extract}

pub record UploadFile : Type 0 where
  pub filename : Option Text
  pub contents : Text
  pub archive : Option (List ZipInfo)

-- A file test_*.py below a folder: its path below it, and the file if it can be read.
pub record TestFile : Type 0 where
  pub relative : Text
  pub source : Option SourceFile

pub record UploadOut : Type 0 where
  pub upload_id : Text
  pub client_key : Text
  pub files : List Text
  pub nodeids : List Text
  pub deduplicated : Bool

-- `not file.filename or not file.filename.endswith(".zip")`.
abbrev pub is_zip : Option Text → Bool
is_zip none = false
is_zip (some []) = false
is_zip (some (c ∷ t)) = ends_with (codes ".zip") (c ∷ t)

abbrev pub upload_root : Text
upload_root = codes "data/uploads/"

abbrev pub dir_of : Client → Text → Text
dir_of client name = upload_root ++ client.client_key ++ codes "/" ++ name

-- `c if c.isalnum() or c in "-_" else "_"`.
abbrev pub safe_char : (ℕ → Bool) → ℕ → ℕ
safe_char is_alnum c = if is_alnum c || c == b'-' || c == b'_' then c else b'_'

abbrev pub given_name : Option Text → Text
given_name none = codes "upload"
given_name (some name) = name

module _ (content_hash : Text → Text) (stem : Text → Text) (is_alnum : ℕ → Bool) where
  unfoldable pub new_upload_id : UploadFile → Text
  new_upload_id file =
      take 40 (map (safe_char is_alnum) (stem (given_name file.filename)))
      ++ codes "_"
      ++ content_hash file.contents

module _ (is_space : ℕ → Bool) where
  abbrev pub nodeids_in : TestFile → List Text
  nodeids_in file = elim file.source [
    | none ↦ []
    | some source ↦ discover_nodeids_from_file is_space source
  ]

  abbrev pub all_nodeids : List TestFile → List Text
  all_nodeids [] = []
  all_nodeids (file ∷ files) = nodeids_in file ++ all_nodeids files

  abbrev pub upload_out : Client → Text → List TestFile → Bool → UploadOut
  upload_out client upload_id files deduplicated = record {
    upload_id = upload_id;
    client_key = client.client_key;
    files = map (λ (f : TestFile). f.relative) files;
    nodeids = all_nodeids files;
    deduplicated = deduplicated;
  }

module _ (is_space is_alnum : ℕ → Bool) (content_hash stem : Text → Text)
    (extractall : Text → List ZipInfo → List Text) (max_upload_size : ℕ)
    (folders : Client → List Text) (below : List Text → Text → List TestFile) where
  -- The first folder whose name ends with the hash.
  abbrev pub uploaded_before : Client → UploadFile → Option Text
  uploaded_before client file =
      first (select (ends_with (codes "_" ++ content_hash file.contents)) (folders client))

  unfoldable pub upload_archive : Client → UploadFile → Result UploadOut
  unfolding new_upload_id extract discover_nodeids_from_file
  upload_archive client file = do
    infos ← or_raise file.archive bad_request
    written ←
        extract extractall max_upload_size
          (dir_of client (new_upload_id content_hash stem is_alnum file)) infos
    ok (
        upload_out is_space client (new_upload_id content_hash stem is_alnum file)
          (below written (dir_of client (new_upload_id content_hash stem is_alnum file))) false)

  unfoldable pub upload_tests : Text → UploadFile → Db → Result UploadOut
  unfolding ends_with upload_archive discover_nodeids_from_file
  upload_tests client_key file db = do
    client ← or_raise (find_client client_key db) unauthorized
    require (is_zip file.filename) bad_request
    require (not (ltb max_upload_size (length file.contents))) too_large
    elim (uploaded_before client file) [
      | some name ↦ ok (upload_out is_space client name (below [] (dir_of client name)) true)
      | none ↦ upload_archive client file
    ]

pub record UploadInfo : Type 0 where
  pub upload_id : Text
  pub label : Text
  pub files_count : ℕ

-- `name.rsplit("_", 1)[0]`: what is before the last underscore, or all of it.
unfoldable pub before_underscore : Text → Option Text
before_underscore [] = none
before_underscore (c ∷ t) = elim (before_underscore t) [
  | some before ↦ some (c ∷ before)
  | none ↦ if c == b'_' then some [] else none
]

abbrev pub label_of : Text → Text
label_of name = elim (before_underscore name) [ some before ↦ before | none ↦ name ]

-- The folders by name, the last first; `python_files` counts the files *.py below a folder.
unfoldable pub list_uploads :
    (Client → List Text) → (Text → ℕ) → Text → Db → Result (List UploadInfo)
unfolding before_underscore sort_by
list_uploads folders python_files client_key db = do
  client ← or_raise (find_client client_key db) unauthorized
  ok (
      map
        (λ name. record {
          upload_id = name;
          label = label_of name;
          files_count = python_files (dir_of client name);
        })
        (sort_by (λ (x y : Text). text_leb y x) (folders client)))

-- A resolved path, by its parts.
abbrev pub Parts : Type 0
Parts = List Text

-- `directory in path.parents or path == directory`.
abbrev pub is_at_or_below : Parts → Parts → Bool
is_at_or_below [] path = true
is_at_or_below (p ∷ directory) [] = false
is_at_or_below (p ∷ directory) (q ∷ path) = text_eq p q && is_at_or_below directory path

-- The result is the directory that is removed. `resolve` is `Path.resolve` of a path.
unfoldable pub delete_upload : (Text → Parts) → (Parts → Bool) → Text → Text → Db → Result Parts
delete_upload resolve exists upload_id client_key db = do
  client ← or_raise (find_client client_key db) unauthorized
  require
      (is_at_or_below (resolve (upload_root ++ client.client_key))
        (resolve (dir_of client upload_id)))
      forbidden
  require (exists (resolve (dir_of client upload_id))) not_found
  ok (resolve (dir_of client upload_id))
