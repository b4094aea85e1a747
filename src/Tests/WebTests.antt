-- ===== src/Tests/WebTests.antt =====
-- The theorems on login, upload and the grouping of tests at small inputs.
use distributed_verification.Prelude.{
  ◌≢◌, ◌≡◌, refl, Bool, List, [], ◌∷◌, ◌++◌, All, Text, codes, arith, text_eq,
}
use distributed_verification.Access.{ok}
use distributed_verification.Login.{Attempts, attempts_of, login}
use distributed_verification.Login.RateLimit.{IsLimited, LoginCases, login_cases}
use distributed_verification.Upload.{ZipInfo, extract}
use distributed_verification.Upload.Paths.{IsBelow, extract-IsBelow, extract_escapes}
use distributed_verification.Tests.Samples.{contended}

-- A check that compares the texts.
abbrev plain_check : Text → Text → Bool
plain_check password secret = text_eq password secret

-- Two attempts for one key.
abbrev tries : Attempts
tries = (codes "k1", 10 ∷ 90 ∷ []) ∷ []

tries-IsLimited : IsLimited tries
unfolding attempts_of
tries-IsLimited key = ground arith

login_cases_example :
    LoginCases plain_check 100
      (codes "k1")
      (codes "s")
      contended
      tries
      (login plain_check 100 (codes "k1") (codes "s") contended tries)
login_cases_example = login_cases plain_check 100 (codes "k1") (codes "s") contended tries

-- Every file of the archive below the directory.
abbrev extract_to : Text → List ZipInfo → List Text
extract_to dir [] = []
extract_to dir (i ∷ infos) = (dir ++ codes "/" ++ i.filename) ∷ extract_to dir infos

abbrev archive : List ZipInfo
archive =
    record { filename = codes "top/a.py"; file_size = 10 }
    ∷ record { filename = codes "top/b/c.py"; file_size = 20 }
    ∷ []

extract-IsBelow_example :
    (codes "top" ≢ []) × All (IsBelow (codes "/up")) (codes "/up/a.py" ∷ codes "/up/b/c.py" ∷ [])
unfolding extract
extract-IsBelow_example =
    extract-IsBelow extract_to 100 (codes "/up") archive (codes "top")
      (codes "/up/a.py" ∷ codes "/up/b/c.py" ∷ []) refl (refl, (refl, tt)) refl

extract_escapes_example :
    extract extract_to 100
      (codes "/up")
      (record { filename = codes "top//etc/x"; file_size = 10 } ∷ [])
    ≡ ok (codes "/etc/x" ∷ [])
extract_escapes_example =
    extract_escapes extract_to 100 (codes "/up") (codes "top") (codes "etc/x") 10 (λ e. cc) refl
      refl refl refl

-- Three tests of two files.
abbrev selection : List Text
selection = codes "a.py::t1" ∷ codes "b.py" ∷ codes "a.py::t2" ∷ []
