-- ===== src/Memory/Conflicts/Pairs.antt =====
-- The pairs that the audit of conflicts finds.
use code_butler.Prelude.{
  String, Bool, true, false, ◌||◌, Option, none, some, List, [], ◌∷◌, ◌++◌, map, filter, any,
  contains, ◌==◌, ◌≡◌, refl, sym, ◌∙◌, arith, eq_iff, eq_refl, any-append,
}
use code_butler.Memory.EvidenceMerge.{EvidenceRef}
use code_butler.Memory.Facts.{
  Fact, Words, Scope, project, unspecified, conditional, lists_disjoint, scopes_disjoint,
  same_signature, memory_facts_conflict,
}
use code_butler.Memory.Conflicts.{ConflictPair, canonical_pair, same_pair, find_conflict_pairs}

eq_comm : (a b : String) → (a == b) ≡ (b == a)
eq_comm a b = ground (arith, eq_iff a b, eq_iff b a)

-- Whether two lists share a text does not depend on which is searched.
shared_cons :
    (x : String) (xs ys : List String)
    → any (λ v. contains v (x ∷ xs)) ys ≡ (contains x ys || any (λ v. contains v xs) ys)
shared_cons x xs [] = refl
shared_cons x xs (y ∷ ys) = ground (arith, shared_cons x xs ys, eq_comm x y)

shared_nil : (ys : List String) → any (λ v. contains v []) ys ≡ false
shared_nil [] = refl
shared_nil (y ∷ ys) = shared_nil ys

shared_comm : (xs ys : List String) → any (λ v. contains v ys) xs ≡ any (λ v. contains v xs) ys
shared_comm [] ys = sym (shared_nil ys)
shared_comm (x ∷ xs) ys = ground (arith, shared_comm xs ys, shared_cons x xs ys)

lists_disjoint_comm : (a b : Option (List String)) → lists_disjoint a b ≡ lists_disjoint b a
lists_disjoint_comm (some a) (some b) = ground (arith, shared_comm a b)
lists_disjoint_comm (some a) none = refl
lists_disjoint_comm none (some b) = refl
lists_disjoint_comm none none = refl

scopes_disjoint_comm : (a b : Scope) → scopes_disjoint a b ≡ scopes_disjoint b a
unfolding scopes_disjoint
scopes_disjoint_comm (conditional p a s c) (conditional p' a' s' c') =
    ground (arith, lists_disjoint_comm p p', lists_disjoint_comm a a', lists_disjoint_comm s s')
scopes_disjoint_comm (conditional p a s c) project = refl
scopes_disjoint_comm (conditional p a s c) unspecified = refl
scopes_disjoint_comm project (conditional p a s c) = refl
scopes_disjoint_comm project project = refl
scopes_disjoint_comm project unspecified = refl
scopes_disjoint_comm unspecified (conditional p a s c) = refl
scopes_disjoint_comm unspecified project = refl
scopes_disjoint_comm unspecified unspecified = refl

same_signature_comm : (a b : List EvidenceRef) → same_signature a b ≡ same_signature b a
unfolding same_signature
same_signature_comm a b = ground arith

module _ (words : Words) where
  -- Whether two facts contradict each other does not depend on which comes first.
  pub memory_facts_conflict_comm :
      (a b : Fact) → memory_facts_conflict words a b ≡ memory_facts_conflict words b a
  unfolding memory_facts_conflict
  memory_facts_conflict_comm a b =
      let d = scopes_disjoint_comm a.scope b.scope in
      let s = eq_comm (words.normalize_summary a.summary) (words.normalize_summary b.summary) in
      let e = same_signature_comm a.evidence b.evidence in ground arith

module _ {ℓ κ} {A : Type ℓ} {B : Type κ} (p : B → Bool) (f : A → B) (q : A → Bool) where
  -- An element that is kept is found by what it becomes.
  any-map-filter :
      (vs ws : List A) (b : A)
      → q b ≡ true
      → p (f b) ≡ true
      → any p (map f (filter q (vs ++ b ∷ ws))) ≡ true
  any-map-filter [] ws b kept found = ground arith
  any-map-filter (v ∷ vs) ws b kept found = ground (arith, any-map-filter vs ws b kept found)

same_pair_refl : (p : ConflictPair) → same_pair p p ≡ true
same_pair_refl p = ground (arith, eq_refl p.from_memory_id, eq_refl p.to_memory_id)

module _ (words : Words) where
  found_in_order :
      (us vs ws : List Fact) (a b : Fact)
      → memory_facts_conflict words a b ≡ true
      → any
          (same_pair (canonical_pair a.id b.id))
          (find_conflict_pairs words (us ++ a ∷ (vs ++ b ∷ ws)))
        ≡ true
  unfolding find_conflict_pairs
  found_in_order [] vs ws a b h =
      let found =
        any-map-filter (same_pair (canonical_pair a.id b.id)) (λ c. canonical_pair a.id c.id)
          (λ c. memory_facts_conflict words a c) vs ws b h
          (same_pair_refl (canonical_pair a.id b.id)) in
      any-append (same_pair (canonical_pair a.id b.id))
        (map (λ c. canonical_pair a.id c.id)
          (filter (λ c. memory_facts_conflict words a c) (vs ++ b ∷ ws)))
        (find_conflict_pairs words (vs ++ b ∷ ws))
      ∙ rw found refl
  found_in_order (u ∷ us) vs ws a b h =
      let rest = us ++ a ∷ (vs ++ b ∷ ws) in
      let found = found_in_order us vs ws a b h in
      let split =
        any-append (same_pair (canonical_pair a.id b.id))
          (map (λ c. canonical_pair u.id c.id) (filter (λ c. memory_facts_conflict words u c) rest))
          (find_conflict_pairs words rest) in
      ground arith

  -- Two facts that contradict each other, compared in either order, are among the pairs that are
  -- found, whichever of them comes first in the list.
  pub find_conflict_pairs-memory_facts_conflict :
      (us vs ws : List Fact) (a b : Fact)
      → memory_facts_conflict words a b ≡ true
      → (any
            (same_pair (canonical_pair a.id b.id))
            (find_conflict_pairs words (us ++ a ∷ (vs ++ b ∷ ws)))
          ≡ true)
        × (any
              (same_pair (canonical_pair b.id a.id))
              (find_conflict_pairs words (us ++ b ∷ (vs ++ a ∷ ws)))
            ≡ true)
  find_conflict_pairs-memory_facts_conflict us vs ws a b h = (
    found_in_order us vs ws a b h,
    found_in_order us vs ws b a (memory_facts_conflict_comm words b a ∙ h),
  )
