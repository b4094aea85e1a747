-- ===== src/Clients.antt =====
-- backend/app/api/routes.py: register_client and create_resource. Parameters: `str.strip`,
-- `str.lower`, and the `lower` of the database; the random keys and the hash of the password are
-- given with each call.
use distributed_verification.Prelude.{
  ℕ, suc, ◌≤◌, ◌≡◌, refl, sym, ap, ◌∙◌, ◌⊎◌, inl, inr, arith, Bool, true, Option, none, some, List,
  [], ◌∷◌, ◌++◌, Text, text_eq, text_eq_iff, first, select, count, count-append,
  count-eq-zero_of_first, first-select_snoc, Bool-cases, Option-cases,
}
use distributed_verification.Model.{Client, Resource, Db}
use distributed_verification.Access.{conflict, Result, raise, ok}
use distributed_verification.Queue.{add_resource}

-- ClientCreate.
pub record ClientCreate : Type 0 where
  pub name : Text
  pub email : Option Text
  pub webhook_url : Option Text

-- What is drawn for a new client: `make_secret_key()`, and the hash of another one.
pub record Drawn : Type 0 where
  pub client_key : Text
  pub secret : Text

abbrev pub with_client : Client → Db → Db
with_client c db = record db { clients = db.clients ++ c ∷ []; next_id = suc db.next_id }

module _ (strip lower sql_lower : Text → Text) where
  -- `func.lower(Client.name) == name`.
  abbrev pub has_name : Text → Client → Bool
  has_name name c = text_eq (sql_lower c.name) name

  abbrev pub new_client : Drawn → ClientCreate → Db → Client
  new_client drawn payload db = record {
    id = db.next_id;
    client_key = drawn.client_key;
    name = strip payload.name;
    secret = drawn.secret;
    email = payload.email;
    webhook_url = payload.webhook_url;
  }

  -- The row that the response is made of: a client of the name, or a new one.
  unfoldable pub register_client : Drawn → ClientCreate → Db → Client × Db
  register_client drawn payload db =
      elim (first (select (has_name (lower (strip payload.name))) db.clients)) [
        | some existing ↦ (existing, db)
        | none ↦ (new_client drawn payload db, with_client (new_client drawn payload db) db)
      ]

abbrev pub named : Text → Resource → Bool
named name r = text_eq r.name name

unfoldable pub create_resource : Text → Db → Result (Resource × Db)
unfolding add_resource
create_resource name db = elim (first (select (named name) db.resources)) [
  | some existing ↦ raise conflict
  | none ↦ ok (add_resource name db)
]

-- No two clients have one name up to case, and no two resources one name.
abbrev pub ClientsDiffer : (Text → Text) → Db → Type 0
ClientsDiffer sql_lower db =
    (name : Text) → count (λ (c : Client). text_eq (sql_lower c.name) name) db.clients ≤ 1

abbrev pub ResourcesDiffer : Db → Type 0
ResourcesDiffer db = (name : Text) → count (named name) db.resources ≤ 1

-- One more row, whose test is new if it passes.
count-snoc-le :
    {A : Type 0} (p : A → Bool) (xs : List A) (x : A)
    → count p xs ≤ 1
    → (p x ≡ true → count p xs ≡ 0)
    → count p (xs ++ x ∷ []) ≤ 1
count-snoc-le p xs x h new = rw (count-append p xs (x ∷ [])) (elim (Bool-cases (p x)) [
  | inl e ↦ rw (e, new e) (omega arith)
  | inr e ↦ rw e (omega (arith, h))
])

module _ (strip lower sql_lower : Text → Text) where
  -- The two branches of a registration.
  register_client-old :
      (drawn : Drawn) (payload : ClientCreate) (db : Db) {c : Client}
      → first (select (has_name strip lower sql_lower (lower (strip payload.name))) db.clients)
        ≡ some c
      → register_client strip lower sql_lower drawn payload db ≡ (c, db)
  unfolding register_client
  register_client-old drawn payload db e = rw (register_client, e) refl

  register_client-new :
      (drawn : Drawn) (payload : ClientCreate) (db : Db)
      → first (select (has_name strip lower sql_lower (lower (strip payload.name))) db.clients)
        ≡ none
      → register_client strip lower sql_lower drawn payload db ≡ (
        new_client strip lower sql_lower drawn payload db,
        with_client (new_client strip lower sql_lower drawn payload db) db,
      )
  unfolding register_client
  register_client-new drawn payload db e = rw (register_client, e) refl

  -- The client that a registration returns is the one that its name finds.
  registered-first :
      (drawn : Drawn) (payload : ClientCreate) (db : Db)
      → sql_lower (strip payload.name) ≡ lower (strip payload.name)
      → let registered = register_client strip lower sql_lower drawn payload db in
        first (
          select (has_name strip lower sql_lower (lower (strip payload.name))) registered.1.clients)
        ≡ some registered.0
  registered-first drawn payload db same =
      let name = lower (strip payload.name) in
      let has = has_name strip lower sql_lower name in
      elim (Option-cases (first (select has db.clients))) [
        | inr (old, e) ↦ rw (register_client-old drawn payload db e) e
        | inl e ↦ rw (register_client-new drawn payload db e) (
            first-select_snoc has db.clients _ (count-eq-zero_of_first has db.clients e)
              ((text_eq_iff (sql_lower (strip payload.name)) name).1 same))
      ]

  -- Registering a name again, in any spelling that differs in case or in the blanks around it,
  -- returns the client that has it, its key included, and changes nothing, whatever else is asked
  -- for, if the database lowers the registered name as the code does.
  pub register_client_again :
      (drawn other : Drawn) (payload again : ClientCreate) (db : Db)
      → sql_lower (strip payload.name) ≡ lower (strip payload.name)
      → lower (strip again.name) ≡ lower (strip payload.name)
      → register_client strip lower sql_lower other again
          (register_client strip lower sql_lower drawn payload db).1
        ≡ register_client strip lower sql_lower drawn payload db
  register_client_again drawn other payload again db same spelled =
      let registered = register_client strip lower sql_lower drawn payload db in
      register_client-old other again registered.1 (
        ap (λ name. first (select (has_name strip lower sql_lower name) registered.1.clients))
          spelled
        ∙ registered-first drawn payload db same)

  -- Registering a client keeps the names of the clients apart up to case, if the database lowers the
  -- new name as the code does.
  pub register_client-ClientsDiffer :
      (drawn : Drawn) (payload : ClientCreate) (db : Db)
      → sql_lower (strip payload.name) ≡ lower (strip payload.name)
      → ClientsDiffer sql_lower db
      → ClientsDiffer sql_lower (register_client strip lower sql_lower drawn payload db).1
  register_client-ClientsDiffer drawn payload db same h name =
      let wanted = lower (strip payload.name) in
      let has = has_name strip lower sql_lower wanted in
      let has_this = has_name strip lower sql_lower name in
      elim (Option-cases (first (select has db.clients))) [
        | inr (old, e) ↦ rw (register_client-old drawn payload db e) (h name)
        | inl e ↦ rw (register_client-new drawn payload db e) (
            count-snoc-le has_this db.clients _ (h name) (λ hit.
              let equal : wanted ≡ name = sym same ∙ (text_eq_iff _ name).0 hit in
              ap (λ n. count (has_name strip lower sql_lower n) db.clients) (sym equal)
              ∙ count-eq-zero_of_first has db.clients e))
      ]

-- A resource whose name is new is added; a name that is taken is refused.
create_resource-cases :
    (name : Text) (db : Db)
    → (create_resource name db ≡ raise conflict)
      ⊎ ((create_resource name db ≡ ok (add_resource name db))
          × (count (named name) db.resources ≡ 0))
unfolding create_resource
create_resource-cases name db = elim (Option-cases (first (select (named name) db.resources))) [
  | inr (r, e) ↦ inl (rw (create_resource, e) refl)
  | inl e ↦ inr (rw (create_resource, e) refl, count-eq-zero_of_first (named name) db.resources e)
]

-- Creating a resource keeps the names of the resources apart.
pub create_resource-ResourcesDiffer :
    (name : Text) (db : Db) (made : Resource × Db)
    → ResourcesDiffer db
    → create_resource name db ≡ ok made
    → ResourcesDiffer made.1
create_resource-ResourcesDiffer name db made h e other = elim (create_resource-cases name db) [
  | inl refused ↦ absurd_case (sym refused ∙ e)
  | inr (added, new) ↦
      let same : add_resource name db ≡ made = ok-inj (sym added ∙ e) in
      ap_le (λ m. count (named other) m.1.resources) same
        (unfold add_resource in
          count-snoc-le (named other) db.resources _ (h other) (λ hit.
            ap (λ n. count (named n) db.resources) (sym ((text_eq_iff name other).0 hit)) ∙ new))
]
  where
    absurd_case : {A B : Type 0} {b : B} → ◌≡◌ {A = Result B} (raise conflict) (ok b) → A
    absurd_case k = cc

    ok-inj : {B : Type 0} {x y : B} → ◌≡◌ {A = Result B} (ok x) (ok y) → x ≡ y
    ok-inj k = cc

    ap_le : {B : Type 0} {x y : B} (f : B → ℕ) → x ≡ y → f x ≤ 1 → f y ≤ 1
    ap_le f k le = rw (← k) le
