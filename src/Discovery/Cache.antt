-- ===== src/Discovery/Cache.antt =====
-- _get_all_test_nodeids and its cache. A call is its time and the files that are on the disk then.
use mathlib.Core.List.{Mem, mem-cons_self, mem-cons_of_mem}
use distributed_verification.Prelude.{
  ℕ, ◌-◌, ◌<◌, ◌≡◌, refl, ◌⊎◌, inl, inr, arith, Bool, true, false, not, ◌&&◌, List, [], ◌∷◌, Text,
  ltb, if◌then◌else◌, Bool-cases,
}
use distributed_verification.Discovery.{SourceFile, collect_nodeids}

-- `_test_cache`.
pub record TestCache : Type 0 where
  pub nodeids : List Text
  pub timestamp : ℕ

abbrev pub empty_cache : TestCache
empty_cache = record { nodeids = []; timestamp = 0 }

-- `_TEST_CACHE_TTL`, in seconds.
abbrev pub test_cache_ttl : ℕ
test_cache_ttl = 10

abbrev is_empty : List Text → Bool
is_empty [] = true
is_empty (t ∷ ts) = false

pub record Call : Type 0 where
  pub now : ℕ
  pub files : List SourceFile

module _ (is_space : ℕ → Bool) where
  unfoldable pub get_all_test_nodeids : Call → TestCache → List Text × TestCache
  unfolding collect_nodeids
  get_all_test_nodeids call cache =
      if not (is_empty cache.nodeids) && ltb (call.now - cache.timestamp) test_cache_ttl
      then (cache.nodeids, cache)
      else let nodeids = collect_nodeids is_space call.files in
        (nodeids, record { nodeids = nodeids; timestamp = call.now })

  -- The results of the calls, in order.
  unfoldable pub answers : List Call → TestCache → List (List Text)
  unfolding get_all_test_nodeids
  answers [] cache = []
  answers (call ∷ calls) cache =
      let (nodeids, next) = get_all_test_nodeids call cache in nodeids ∷ answers calls next

  -- What the discovery finds at one of the calls, less than ten seconds ago.
  abbrev pub IsFresh : ℕ → List Text → List Call → Type 0
  IsFresh now nodeids calls =
      (call : Call) × Mem call calls
      × (nodeids ≡ collect_nodeids is_space call.files)
      × (now - call.now < test_cache_ttl)

  -- The calls that an answer may be from are its own and those before it.
  abbrev pub AllFresh : List Call → List Call → List (List Text) → Type 0
  AllFresh before [] [] = Unit
  AllFresh before [] (nodeids ∷ rest) = ⊥
  AllFresh before (call ∷ calls) [] = ⊥
  AllFresh before (call ∷ calls) (nodeids ∷ rest) =
      IsFresh call.now nodeids (call ∷ before) × AllFresh (call ∷ before) calls rest

  -- The cache is empty, or holds what was found at a call, with its time.
  abbrev Holds : List Call → TestCache → Type 0
  Holds before cache =
      (cache.nodeids ≡ [])
      ⊎ ((call : Call) × Mem call before
          × (cache.nodeids ≡ collect_nodeids is_space call.files)
          × (cache.timestamp ≡ call.now))

  get_all-IsFresh :
      (call : Call) (cache : TestCache) (before : List Call)
      → Holds before cache
      → IsFresh call.now (get_all_test_nodeids call cache).0 (call ∷ before)
        × Holds (call ∷ before) (get_all_test_nodeids call cache).1
  unfolding get_all_test_nodeids
  get_all-IsFresh call cache before h =
      elim (Bool-cases (not (is_empty cache.nodeids) && ltb (call.now - cache.timestamp) 10)) [
        | inr old ↦
            rw old
              ((call, mem-cons_self, refl, ground arith), inr (call, mem-cons_self, refl, refl))
        | inl kept ↦ rw kept (elim h [
          | inl none_yet ↦ absurd_case (rw none_yet at kept)
          | inr (past, m, same, time) ↦ (
            (past, mem-cons_of_mem call m, same, ground arith),
            inr (past, mem-cons_of_mem call m, same, time),
          )
        ])
      ]
    where
      absurd_case : {A : Type 0} → false ≡ true → A
      absurd_case e = cc

  answers-AllFresh :
      (before calls : List Call) (cache : TestCache)
      → Holds before cache
      → AllFresh before calls (answers calls cache)
  unfolding answers
  answers-AllFresh before [] cache h = tt
  answers-AllFresh before (call ∷ calls) cache h =
      let (fresh, next) = get_all-IsFresh call cache before h in
      (fresh, answers-AllFresh (call ∷ before) calls _ next)

-- Whatever the calls and however the files change between them, each answer of the cached discovery
-- is what the discovery finds on the disk at that call or at an earlier one less than ten seconds
-- ago.
pub get_all_test_nodeids_fresh :
    (is_space : ℕ → Bool) (calls : List Call)
    → AllFresh is_space [] calls (answers is_space calls empty_cache)
get_all_test_nodeids_fresh is_space calls =
    answers-AllFresh is_space [] calls empty_cache (inl refl)
