-- ===== src/Upload/Paths.antt =====
-- Where the files of a flattened archive go.
use mathlib.Core.Path.{subst}
use distributed_verification.Prelude.{
  codes, ◌==◌, any, select, All-select, All-append, ℕ, zero, suc, ◌*◌, ◌≡◌, refl, ap, ◌∙◌, ◌≢◌, inl,
  inr, true, false, not, ◌&&◌, List, [], ◌∷◌, ◌++◌, map, arith, Text, text_eq, starts_with,
  contains, ltb, Bool-cases, length, drop, all, All,
}
use distributed_verification.Access.{ok, >>=-eq-ok, require, bad_request}
use distributed_verification.Upload.{
  ZipInfo, slash, dots, ends_with_slash, is_accepted, top_part, add_text, top_dirs, archive_dirs,
  join, flatten, write_all, extract,
}

contains-drop :
    (needle : Text) (n : ℕ) (t : Text)
    → contains needle t ≡ false
    → contains needle (drop n t) ≡ false
contains-drop needle zero t h = h
contains-drop needle (suc n) [] h = h
contains-drop needle (suc n) (c ∷ t) h = contains-drop needle n t (ground arith)

-- A path lies below the directory: what follows it is no absolute path and has no "..".
pub record IsBelow (dir path : Text) : Type 0 where
  pub name : Text
  pub below : path ≡ dir ++ b'/' ∷ name
  pub relative : starts_with slash name ≡ false
  pub plain : contains dots name ≡ false

-- Behind the top directory and its slash stands no second slash.
drop-relative :
    (top n : Text)
    → starts_with (top ++ slash) n ≡ true
    → contains (codes "//") n ≡ false
    → starts_with slash (drop (length (top ++ slash)) n) ≡ false
drop-relative [] [] h k = cc
drop-relative [] (c ∷ []) h k = refl
drop-relative [] (c ∷ d ∷ t) h k = ground arith
drop-relative (x ∷ top) [] h k = cc
drop-relative (x ∷ top) (c ∷ t) h k = ground (arith, drop-relative top t)

join-below :
    (dir name : Text)
    → text_eq name [] ≡ false
    → starts_with slash name ≡ false
    → join dir name ≡ dir ++ b'/' ∷ name
join-below dir [] h k = cc
join-below dir (c ∷ name) h k = let other : (c == b'/') ≡ false = ground arith in rw other refl

flatten-IsBelow :
    (dir top : Text) (names : List Text)
    → All (λ n. contains dots n ≡ false) names
    → All (λ n. contains (codes "//") n ≡ false) names
    → All (IsBelow dir) (map (join dir) (flatten (top ++ slash) names))
unfolding flatten
flatten-IsBelow dir top [] h k = tt
flatten-IsBelow dir top (n ∷ names) h k =
    let target = drop (length (top ++ slash)) n in
    elim (Bool-cases (starts_with (top ++ slash) n && not (text_eq target []))) [
      | inr e ↦ rw e (flatten-IsBelow dir top names h.1 k.1)
      | inl e ↦
          let relative = drop-relative top n (ground arith) k.0 in
          rw e (
            record {
              name = target;
              below = join-below dir target (ground arith) relative;
              relative = relative;
              plain = contains-drop dots (length (top ++ slash)) n h.0;
            },
            flatten-IsBelow dir top names h.1 k.1,
          )
    ]

accepted_names :
    (max_upload_size : ℕ) (infos : List ZipInfo)
    → all (is_accepted max_upload_size) infos ≡ true
    → All (λ n. contains dots n ≡ false) (map (λ i. i.filename) infos)
accepted_names max_upload_size [] h = tt
accepted_names max_upload_size (i ∷ infos) h =
    (ground arith, accepted_names max_upload_size infos (ground arith))

accepted-relative :
    (max_upload_size : ℕ) (infos : List ZipInfo)
    → all (is_accepted max_upload_size) infos ≡ true
    → All (λ n. starts_with slash n ≡ false) (map (λ i. i.filename) infos)
accepted-relative max_upload_size [] h = tt
accepted-relative max_upload_size (i ∷ infos) h =
    (ground arith, accepted-relative max_upload_size infos (ground arith))

-- The top directories of paths that are not absolute have names.
abbrev IsNonempty : Text → Type 0
IsNonempty t = text_eq t [] ≡ false

top_part-IsNonempty :
    (entry : Text)
    → contains slash entry ≡ true
    → starts_with slash entry ≡ false
    → IsNonempty (top_part entry)
unfolding top_part
top_part-IsNonempty [] h k = cc
top_part-IsNonempty (c ∷ t) h k = let other : (c == b'/') ≡ false = ground arith in rw other refl

add_text-IsNonempty :
    (t : Text) (acc : List Text)
    → IsNonempty t
    → All IsNonempty acc
    → All IsNonempty (add_text t acc)
add_text-IsNonempty t acc h k = elim (Bool-cases (any (λ u. text_eq u t) acc)) [
  | inl e ↦ rw e k
  | inr e ↦ rw e (All-append IsNonempty acc (t ∷ []) k (h, tt))
]

top_dirs-IsNonempty :
    (acc entries : List Text)
    → All IsNonempty acc
    → All (λ n. starts_with slash n ≡ false) entries
    → All IsNonempty (top_dirs acc entries)
unfolding top_dirs
top_dirs-IsNonempty acc [] h k = h
top_dirs-IsNonempty acc (entry ∷ entries) h k = elim (Bool-cases (contains slash entry)) [
  | inr e ↦ rw e tt
  | inl e ↦ rw e (
      top_dirs-IsNonempty (add_text (top_part entry) acc) entries
        (add_text-IsNonempty (top_part entry) acc (top_part-IsNonempty entry e k.0) h) k.1)
]

ends_with_slash-append :
    (s : Text) (c : ℕ) (t : Text) → ends_with_slash (s ++ c ∷ t) ≡ ends_with_slash (c ∷ t)
ends_with_slash-append [] c t = refl
ends_with_slash-append (x ∷ []) c t = refl
ends_with_slash-append (x ∷ y ∷ s) c t = ends_with_slash-append (y ∷ s) c t

contains-slash-append : (s t : Text) → contains slash (s ++ b'/' ∷ t) ≡ true
contains-slash-append [] t = refl
contains-slash-append (c ∷ s) t = ground (arith, contains-slash-append s t)

top_part-append : (s t : Text) → contains slash s ≡ false → top_part (s ++ b'/' ∷ t) ≡ s
unfolding top_part
top_part-append [] t h = refl
top_part-append (c ∷ s) t h = ground (arith, top_part-append s t)

starts_with-slash-append :
    (s t : Text) → s ≢ [] → contains slash s ≡ false → starts_with slash (s ++ t) ≡ false
starts_with-slash-append [] t some_top h = absurd (some_top refl)
starts_with-slash-append (c ∷ s) t some_top h = ground arith

starts_with-snoc : (s : Text) (c : ℕ) (t : Text) → starts_with (s ++ c ∷ []) (s ++ c ∷ t) ≡ true
starts_with-snoc [] c t = ground arith
starts_with-snoc (x ∷ s) c t = ground (arith, starts_with-snoc s c t)

drop-snoc : (s : Text) (c : ℕ) (t : Text) → drop (length (s ++ c ∷ [])) (s ++ c ∷ t) ≡ t
drop-snoc [] c t = refl
drop-snoc (x ∷ s) c t = drop-snoc s c t

-- An archive of one entry, by what is known of its name.
dirs_of_one :
    (name top : Text) (size : ℕ)
    → ends_with_slash name ≡ false
    → contains slash name ≡ true
    → top_part name ≡ top
    → archive_dirs (record { filename = name; file_size = size } ∷ []) ≡ top ∷ []
unfolding archive_dirs
dirs_of_one name top size file deep e = ground arith

flatten_one :
    (wrapper name target : Text)
    → starts_with wrapper name ≡ true
    → drop (length wrapper) name ≡ target
    → text_eq target [] ≡ false
    → flatten wrapper (name ∷ []) ≡ target ∷ []
unfolding flatten
flatten_one wrapper name target below e some_target = ground arith

accepted_one :
    (max_upload_size : ℕ) (name : Text) (size : ℕ)
    → starts_with slash name ≡ false
    → contains dots name ≡ false
    → ltb (max_upload_size * 3) size ≡ false
    → all (is_accepted max_upload_size) (record { filename = name; file_size = size } ∷ []) ≡ true
accepted_one max_upload_size name size a b c = ground arith

not_empty : (t : Text) → t ≡ [] → IsNonempty t → ⊥
not_empty [] e h = cc
not_empty (c ∷ t) e h = cc

module _ (extractall : Text → List ZipInfo → List Text) (max_upload_size : ℕ) (dir : Text) where
  accepted_all :
      (infos : List ZipInfo) {u : Unit {0}}
      → require (all (is_accepted max_upload_size) infos) bad_request ≡ ok u
      → all (is_accepted max_upload_size) infos ≡ true
  accepted_all infos h = ground arith

  -- An archive with one top directory that is accepted, and has no entry with "//" in its name, is
  -- written only to paths below the upload directory, and its top directory has a name.
  pub extract-IsBelow :
      (infos : List ZipInfo) (top : Text) (paths : List Text)
      → archive_dirs infos ≡ top ∷ []
      → All (λ n. contains (codes "//") n ≡ false) (map (λ i. i.filename) infos)
      → extract extractall max_upload_size dir infos ≡ ok paths
      → (top ≢ []) × All (IsBelow dir) paths
  unfolding extract write_all archive_dirs
  extract-IsBelow infos top paths one single e =
      let (_, passed, e₁) =
        >>=-eq-ok (require (all (is_accepted max_upload_size) infos) bad_request) _ e in
      let names = map (λ (i : ZipInfo). i.filename) infos in
      let accepted = accepted_all infos passed in
      let written : write_all extractall dir infos (top ∷ []) ≡ paths = cc in
      let tops = top_dirs-IsNonempty [] (select (λ n. not (ends_with_slash n)) names) tt (
        All-select (λ n. starts_with slash n ≡ false) (λ n. not (ends_with_slash n)) names
          (accepted-relative max_upload_size infos accepted)) in
      let named_top : All IsNonempty (top ∷ []) = subst (All IsNonempty) one tops in
      (
        λ empty. not_empty top empty named_top.0,
        subst (All (IsBelow dir)) written
            (flatten-IsBelow dir top names (accepted_names max_upload_size infos accepted) single),
      )

  extract_one :
      (infos : List ZipInfo) (top : Text) (targets : List Text)
      → all (is_accepted max_upload_size) infos ≡ true
      → archive_dirs infos ≡ top ∷ []
      → flatten (top ++ slash) (map (λ i. i.filename) infos) ≡ targets
      → extract extractall max_upload_size dir infos ≡ ok (map (join dir) targets)
  unfolding extract write_all
  extract_one infos top targets accepted one e =
      rw accepted (ap ok (ap (write_all extractall dir infos) one ∙ ap (map (join dir)) e))

  -- An archive whose only entry has an empty part after its top directory, as in "top//etc/x", is
  -- accepted, and written to the absolute path behind it.
  pub extract_escapes :
      (top rest : Text) (size : ℕ)
      → top ≢ []
      → contains slash top ≡ false
      → contains dots (top ++ b'/' ∷ b'/' ∷ rest) ≡ false
      → ends_with_slash (b'/' ∷ rest) ≡ false
      → ltb (max_upload_size * 3) size ≡ false
      → extract extractall max_upload_size dir
          (record { filename = top ++ b'/' ∷ b'/' ∷ rest; file_size = size } ∷ [])
        ≡ ok ((b'/' ∷ rest) ∷ [])
  extract_escapes top rest size some_top no_slash no_dots no_dir fits =
      let name = top ++ b'/' ∷ b'/' ∷ rest in
      let info : ZipInfo = record { filename = name; file_size = size } in
      extract_one (info ∷ []) top ((b'/' ∷ rest) ∷ [])
        (accepted_one max_upload_size name size
          (starts_with-slash-append top (b'/' ∷ b'/' ∷ rest) some_top no_slash) no_dots fits)
        (dirs_of_one name top size (ends_with_slash-append top b'/' (b'/' ∷ rest) ∙ no_dir)
          (contains-slash-append top (b'/' ∷ rest)) (top_part-append top (b'/' ∷ rest) no_slash))
        (flatten_one (top ++ slash) name (b'/' ∷ rest) (starts_with-snoc top b'/' (b'/' ∷ rest))
          (drop-snoc top b'/' (b'/' ∷ rest)) refl)
