-- ===== src/Memory/Promotion/Core.antt =====
-- `findCoreEquivalent`: how a fact stands to the durable memories of the core layer.
use code_butler.Prelude.{
  Bool, false, ◌&&◌, none, some, List, [], ◌∷◌, find?, filter, ◌==◌, ◌≡◌, refl, any, is_some, ◌||◌,
  ◌↔◌, arith,
}
use code_butler.Memory.Facts.{
  Fact, Words, memory_facts_conflict, memory_subject_group_key, same_summary, scope_key,
}
use code_butler.Memory.Facts.Groups.{group_by_subject, group_of, group_by_subject-filter}

pub data CoreMatch : Type 0 where
  no_match : CoreMatch
  equivalent conflicting : Fact → CoreMatch

module _ {ℓ} {A : Type ℓ} where
  -- Whether a search finds something.
  find?-any : (p : A → Bool) (xs : List A) → is_some (find? p xs) ≡ any p xs
  find?-any p [] = refl
  find?-any p (x ∷ xs) = ground (arith, find?-any p xs)

  any-or : (p q : A → Bool) (xs : List A) → any (λ x. p x || q x) xs ≡ (any p xs || any q xs)
  any-or p q [] = refl
  any-or p q (x ∷ xs) = ground (arith, any-or p q xs)

  any-filter_and : (q p : A → Bool) (xs : List A) → any p (filter q xs) ≡ any (λ x. q x && p x) xs
  any-filter_and q p [] = refl
  any-filter_and q p (x ∷ xs) = ground (arith, any-filter_and q p xs)

module _ (words : Words) where
  abbrev pub same_dedupe : Fact → Fact → Bool
  same_dedupe memory core =
      core.dedupe_key == memory.dedupe_key
      && scope_key words core.scope == scope_key words memory.scope

  abbrev after_summary : Fact → List Fact → CoreMatch
  after_summary memory group = elim (find? (λ c. memory_facts_conflict words c memory) group) [
    | none ↦ no_match
    | some c ↦ conflicting c
  ]

  abbrev after_dedupe : Fact → List Fact → CoreMatch
  after_dedupe memory group = elim (find? (λ c. same_summary words c memory) group) [
    | none ↦ after_summary memory group
    | some c ↦ equivalent c
  ]

  abbrev pub match_in : Fact → List Fact → CoreMatch
  match_in memory group = elim (find? (same_dedupe memory) group) [
    | none ↦ after_dedupe memory group
    | some c ↦ equivalent c
  ]

  -- `findCoreEquivalent(memory, groupCoreBySubject(core))`
  unfoldable pub find_core_equivalent : Fact → List Fact → CoreMatch
  find_core_equivalent memory core =
      match_in memory
        (group_of words (group_by_subject words core) (memory_subject_group_key words memory))

  -- The core memory states the same, or it contradicts the fact.
  abbrev pub related : Fact → Fact → Bool
  related memory core =
      same_dedupe memory core
      || same_summary words core memory
      || memory_facts_conflict words core memory

  abbrev pub same_subject : Fact → Fact → Bool
  same_subject memory core =
      memory_subject_group_key words core == memory_subject_group_key words memory

  match_in-none :
      (memory : Fact) (group : List Fact)
      → (match_in memory group ≡ no_match) ↔ (any (related memory) group ≡ false)
  match_in-none memory group =
      let by_dedupe = find?-any (same_dedupe memory) group in
      let by_summary = find?-any (λ c. same_summary words c memory) group in
      let by_conflict = find?-any (λ c. memory_facts_conflict words c memory) group in
      let split =
        any-or (same_dedupe memory)
          (λ c. same_summary words c memory || memory_facts_conflict words c memory) group in
      let split' =
        any-or (λ c. same_summary words c memory) (λ c. memory_facts_conflict words c memory)
          group in
      (λ h. ground arith, λ h. ground arith)

  -- A fact has no match in the core layer exactly if no core memory about the same subject states
  -- the same, by its key or by its summary, or contradicts it.
  pub find_core_equivalent-none :
      (memory : Fact) (core : List Fact)
      → (find_core_equivalent memory core ≡ no_match)
        ↔ (any (λ c. same_subject memory c && related memory c) core ≡ false)
  unfolding find_core_equivalent
  find_core_equivalent-none memory core =
      let key = memory_subject_group_key words memory in
      let group = filter (λ c. memory_subject_group_key words c == key) core in
      let (to, from) = match_in-none memory group in
      rw
        (
          group_by_subject-filter words core key,
          ← any-filter_and (λ c. memory_subject_group_key words c == key) (related memory) core,
        )
        (to, from)
