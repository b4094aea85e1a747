-- ===== src/Upload/Ids.antt =====
-- An upload is known by the hash of its contents.
use mathlib.Core.List.{append_assoc}
use mathlib.Core.Path.{subst}
use distributed_verification.Prelude.{
  ℕ, ◌≡◌, refl, sym, ap, ◌∙◌, inl, inr, arith, Bool, true, false, Option, some, List, [], ◌∷◌, ◌++◌,
  Text, codes, text_eq, text_eq_iff, text_eq_refl, ltb, length, any, first, select, test-first,
  Bool-cases, Option-cases,
}
use distributed_verification.Model.{Client, Db}
use distributed_verification.Access.{
  HttpError, Result, raise, ok, bad_request, ◌>>=◌, or_raise, find_client,
}
use distributed_verification.Reports.Endpoints.Results.{ends_with}
use distributed_verification.Upload.{ZipInfo, extract}
use distributed_verification.Upload.Endpoints.{
  UploadFile, TestFile, UploadOut, is_zip, dir_of, new_upload_id, upload_out, uploaded_before,
  upload_archive, upload_tests,
}

ends_with-append : (s t : Text) → ends_with s (t ++ s) ≡ true
unfolding ends_with
ends_with-append [] [] = refl
ends_with-append (c ∷ s) [] = rw (text_eq_refl (c ∷ s)) refl
ends_with-append s (c ∷ t) = ground (arith, ends_with-append s t)

-- A name that passes is in the list, or an earlier one is found.
first-some :
    (p : Text → Bool) (name : Text) (names : List Text)
    → any (text_eq name) names ≡ true
    → p name ≡ true
    → (found : Text) × (first (select p names) ≡ some found)
first-some p name [] h k = cc
first-some p name (n ∷ names) h k = elim (Bool-cases (p n)) [
  | inl e ↦ (n, rw e refl)
  | inr e ↦
      let other : text_eq name n ≡ false = not_equal name n k e in
      rw e (first-some p name names (rw other at h) k)
]
  where
    absurd_case : {A : Type 0} → true ≡ false → A
    absurd_case e = cc

    not_equal : (s t : Text) → p s ≡ true → p t ≡ false → text_eq s t ≡ false
    not_equal s t u v = elim (Bool-cases (text_eq s t)) [
      | inr e ↦ e
      | inl e ↦ absurd_case (sym u ∙ ap p ((text_eq_iff s t).0 e) ∙ v)
    ]

new_upload_id-ends_with :
    (content_hash stem : Text → Text) (is_alnum : ℕ → Bool) (file : UploadFile)
    → ends_with
        (codes "_" ++ content_hash file.contents)
        (new_upload_id content_hash stem is_alnum file)
      ≡ true
unfolding new_upload_id
new_upload_id-ends_with content_hash stem is_alnum file =
    ap (ends_with (codes "_" ++ content_hash file.contents)) (append_assoc _ (codes "_") _)
    ∙ ends_with-append (codes "_" ++ content_hash file.contents) _

-- The id of the upload, if there is one, ends with the suffix.
abbrev HasSuffix : Text → Result UploadOut → Type 0
HasSuffix suffix (raise e) = Unit
HasSuffix suffix (ok out) = ends_with suffix out.upload_id ≡ true

HasSuffix->>= :
    {X : Type 0} (suffix : Text) (call : Result X) (rest : X → Result UploadOut)
    → ((x : X) → HasSuffix suffix (rest x))
    → HasSuffix suffix (call >>= rest)
HasSuffix->>= suffix (raise e) rest h = tt
HasSuffix->>= suffix (ok x) rest h = h x

module _ (is_space is_alnum : ℕ → Bool) (content_hash stem : Text → Text)
    (extractall : Text → List ZipInfo → List Text) (max_upload_size : ℕ) where
  upload_archive-HasSuffix :
      (folders : Client → List Text) (below : List Text → Text → List TestFile) (client : Client)
      (file : UploadFile)
      → HasSuffix (codes "_" ++ content_hash file.contents) (
          upload_archive is_space is_alnum content_hash stem extractall max_upload_size folders
            below client file)
  unfolding upload_archive
  upload_archive-HasSuffix folders below client file =
      let suffix = codes "_" ++ content_hash file.contents in
      HasSuffix->>= suffix (or_raise file.archive bad_request) _ (λ infos.
        HasSuffix->>= suffix
          (extract extractall max_upload_size
            (dir_of client (new_upload_id content_hash stem is_alnum file)) infos)
          _ (λ written. new_upload_id-ends_with content_hash stem is_alnum file))

  abbrev suffix_of : UploadFile → Text
  suffix_of file = codes "_" ++ content_hash file.contents

  abbrev before :
      (Client → List Text) → (List Text → Text → List TestFile) → Client → UploadFile → Option Text
  before folders below client file =
      uploaded_before is_space is_alnum content_hash stem extractall max_upload_size folders below
        client file

  -- An upload that succeeds passed the checks, and its id ends with the hash.
  upload_tests-accepted :
      (folders : Client → List Text) (below : List Text → Text → List TestFile) (client_key : Text)
      (file : UploadFile) (db : Db) (client : Client) (out : UploadOut)
      → find_client client_key db ≡ some client
      → upload_tests is_space is_alnum content_hash stem extractall max_upload_size folders below
          client_key file db
        ≡ ok out
      → (ltb max_upload_size (length file.contents) ≡ false)
        × (ends_with (codes "_" ++ content_hash file.contents) out.upload_id ≡ true)
  unfolding upload_tests upload_archive
  upload_tests-accepted folders below client_key file db client out known e =
      elim (Bool-cases (is_zip file.filename)) [
        | inr z ↦ absurd_case (rw (known, z) at e)
        | inl z ↦ elim (Bool-cases (ltb max_upload_size (length file.contents))) [
          | inl big ↦ absurd_case (rw (known, z, big) at e)
          | inr small ↦ (
            small,
            elim (Option-cases (before folders below client file)) [
              | inl none_yet ↦
                  subst (HasSuffix (suffix_of file)) (rw (known, z, small, none_yet) at e)
                    (upload_archive-HasSuffix folders below client file)
              | inr (name, h) ↦
                  subst (HasSuffix (suffix_of file)) (rw (known, z, small, h) at e)
                    (test-first (ends_with (suffix_of file)) (folders client) h)
            ],
          )
        ]
      ]
    where
      absurd_case :
          {A : Type 0} {r : HttpError} {o : UploadOut}
          → ◌≡◌ {A = Result UploadOut} (raise r) (ok o)
          → A
      absurd_case k = cc

  -- A client that has uploaded an archive, and whose folder of it is still there, uploads a ZIP file
  -- of the same contents under any name: the upload succeeds, nothing is extracted, and the id that
  -- it returns ends with the hash of the contents, like the first.
  pub upload_tests_again :
      (folders later : Client → List Text) (below below_then : List Text → Text → List TestFile)
      (client_key : Text) (file again : UploadFile) (db : Db) (client : Client) (out : UploadOut)
      → find_client client_key db ≡ some client
      → upload_tests is_space is_alnum content_hash stem extractall max_upload_size folders below
          client_key file db
        ≡ ok out
      → any (text_eq out.upload_id) (later client) ≡ true
      → again.contents ≡ file.contents
      → is_zip again.filename ≡ true
      → (second : Text) × (upload_tests is_space is_alnum content_hash stem extractall
            max_upload_size later below_then client_key again db
          ≡ ok (upload_out is_space client second (below_then [] (dir_of client second)) true))
        × (ends_with (suffix_of file) second ≡ true)
  unfolding upload_tests
  upload_tests_again folders later below below_then client_key file again db client out known e
        there same zip =
      let (small, ends) =
        upload_tests-accepted folders below client_key file db client out known e in
      let (second, found) =
        first-some (ends_with (suffix_of file)) out.upload_id (later client) there ends in
      let size : ltb max_upload_size (length again.contents) ≡ false = rw same small in
      let earlier : before later below_then client again ≡ some second = rw same found in
      (
        second,
        rw known (rw zip (rw size (rw earlier refl))),
        test-first (ends_with (suffix_of file)) (later client) found,
      )
