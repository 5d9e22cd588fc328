-- ===== src/Memory/Facts/Groups.antt =====
-- Grouping facts by their subject: the map that `groupBySubject` of memory/conflicts.ts and
-- `groupCoreBySubject` of memory/automatic-promotion.ts build.
use code_butler.Prelude.{
  String, List, [], ◌∷◌, ◌++◌, ◌≡◌, refl, filter, ◌==◌, eq_iff, inl, inr, Bool-cases, if◌then◌else◌,
}
use mathlib.Core.List.{append-nil, append_assoc}
use code_butler.Prelude.Assoc.{Assoc, get, put, get-put}
use code_butler.Storage.{or_else}
use code_butler.Memory.Facts.{Fact, Words, memory_subject_group_key}

module _ (words : Words) where
  -- The body of the loop: `groups.set(key, [...group, memory])`.
  abbrev pub add_to_group : Assoc (List Fact) → Fact → Assoc (List Fact)
  add_to_group groups m =
      let key = memory_subject_group_key words m in
      put groups key (or_else (get groups key) [] ++ m ∷ [])

  pub group_from : Assoc (List Fact) → List Fact → Assoc (List Fact)
  group_from groups [] = groups
  group_from groups (m ∷ ms) = group_from (add_to_group groups m) ms

  unfoldable pub group_by_subject : List Fact → Assoc (List Fact)
  unfolding group_from
  group_by_subject ms = group_from [] ms

  -- `groups.get(key) ?? []`
  abbrev pub group_of : Assoc (List Fact) → String → List Fact
  group_of groups key = or_else (get groups key) []

  group_of-add :
      (groups : Assoc (List Fact)) (m : Fact) (key : String)
      → group_of (add_to_group groups m) key
        ≡ group_of groups key ++ (if memory_subject_group_key words m == key then m ∷ [] else [])
  group_of-add groups m key =
      let k = memory_subject_group_key words m in
      let v = or_else (get groups k) [] ++ m ∷ [] in
      elim (Bool-cases (k == key)) [
        | inl e ↦ rw (get-put groups k key v, e, (eq_iff k key).0 e) refl
        | inr e ↦ rw (get-put groups k key v, e, append-nil (group_of groups key)) refl
      ]

  group_of-from :
      (groups : Assoc (List Fact)) (ms : List Fact) (key : String)
      → group_of (group_from groups ms) key
        ≡ group_of groups key ++ filter (λ m. memory_subject_group_key words m == key) ms
  unfolding group_from
  group_of-from groups [] key = rw (append-nil (group_of groups key)) refl
  group_of-from groups (m ∷ ms) key =
      rw (group_of-from (add_to_group groups m) ms key, group_of-add groups m key)
        (elim (Bool-cases (memory_subject_group_key words m == key)) [
          | inl e ↦ rw (e, append_assoc) refl
          | inr e ↦ rw (e, append-nil (group_of groups key)) refl
        ])

  -- The group of a key holds just the facts with that key, in their order.
  pub group_by_subject-filter :
      (ms : List Fact) (key : String)
      → group_of (group_by_subject ms) key
        ≡ filter (λ m. memory_subject_group_key words m == key) ms
  unfolding group_by_subject get
  group_by_subject-filter ms key = group_of-from [] ms key
