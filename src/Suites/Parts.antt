-- ===== src/Suites/Parts.antt =====
-- The tests of the suites that are built by name.
use mathlib.Core.List.{Mem, mem-cons_self, mem-cons_of_mem}
use distributed_verification.Prelude.{
  ◌≡◌, Bool, true, false, List, [], ◌∷◌, Text, codes, contains, select, All, All-append, All-map,
  All-select, Bool-cases, inl, inr,
}
use distributed_verification.Suites.Auto.{Suite, naming, has_tests, named_suites, auto_suites}

-- The tests of the suite are among these, and there is at least one if there is one of these.
abbrev pub IsPart : List Text → Suite → Type 0
IsPart all_tests s = All (λ t. Mem t all_tests) s.tests × (s.tests ≡ [] → all_tests ≡ [])

All-mem : (tests : List Text) → All (λ t. Mem t tests) tests
All-mem [] = tt
All-mem (t ∷ tests) = (mem-cons_self, All-map (λ u m. mem-cons_of_mem t m) tests (All-mem tests))

has_tests-IsPart :
    (all_tests : List Text) (suites : List Suite)
    → All (λ s. All (λ t. Mem t all_tests) s.tests) suites
    → All (IsPart all_tests) (select has_tests suites)
has_tests-IsPart all_tests [] h = tt
has_tests-IsPart all_tests (s ∷ suites) h = elim (Bool-cases (has_tests s)) [
  | inl e ↦
      rw e ((h.0, λ empty. absurd_case (rw empty at e)), has_tests-IsPart all_tests suites h.1)
  | inr e ↦ rw e (has_tests-IsPart all_tests suites h.1)
]
  where
    absurd_case : {A : Type 0} → false ≡ true → A
    absurd_case e = cc

-- Each suite that is built by name has only tests that were discovered, and none is empty unless no
-- test was discovered.
pub auto_suites-IsPart :
    (lower : Text → Text) (all_tests : List Text)
    → All (IsPart all_tests) (auto_suites lower all_tests)
unfolding auto_suites
auto_suites-IsPart lower all_tests =
    let among : (p : Text → Bool) → All (λ t. Mem t all_tests) (select p all_tests) =
      λ p. All-select (λ t. Mem t all_tests) p all_tests (All-mem all_tests) in
    let named : (needle : Text) → All (λ t. Mem t all_tests) (naming lower needle all_tests) =
      λ needle. among (λ t. contains needle (lower t)) in
    (
      (All-mem all_tests, λ e. e),
      has_tests-IsPart all_tests (named_suites lower all_tests) (
        among (contains (codes "/smoke/")),
        (
          among (contains (codes "/unit/")),
          (
            among (contains (codes "/integration/")),
            (
              among (contains (codes "_quick")),
              (
                named (codes "security"),
                (
                  named (codes "data"),
                  (
                    All-append (λ t. Mem t all_tests) (naming lower (codes "math") all_tests)
                        (naming lower (codes "string") all_tests) (named (codes "math"))
                        (named (codes "string")),
                    (named (codes "dummy"), tt),
                  ),
                ),
              ),
            ),
          ),
        ),
      ),
    )
