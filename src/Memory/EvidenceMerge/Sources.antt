-- ===== src/Memory/EvidenceMerge/Sources.antt =====
-- A merge keeps every source, while there are no more sources than slots.
use code_butler.Prelude.{
  ℕ, zero, suc, ◌≤◌, String, Bool, true, ◌&&◌, Option, none, some, List, [], ◌∷◌, ◌++◌, length,
  take, filter, any, leb, max, ◌≡◌, refl, inl, inr, ◌⊎◌, arith, eq_iff, eq_refl, Bool-cases, All,
}
use code_butler.Memory.EvidenceMerge.{
  EvidenceRef, same_locator, same_source, same_evidence, dedupe, repeats, all_evidence, keep_limit,
  merge_evidence,
}

module _ {ℓ} {A : Type ℓ} where
  pub any-weaken :
      (p q : A → Bool) (xs : List A)
      → ((a : A) → p a ≡ true → q a ≡ true)
      → any p xs ≡ true
      → any q xs ≡ true
  any-weaken p q [] le h = h
  any-weaken p q (x ∷ xs) le h = ground (arith, le x, any-weaken p q xs le)

  pub any-take_front :
      (p : A → Bool) (n : ℕ) (xs ys : List A)
      → length xs ≤ n
      → any p xs ≡ true
      → any p (take n (xs ++ ys)) ≡ true
  any-take_front p n [] ys le h = ground arith
  any-take_front p zero (x ∷ xs) ys le h = ground arith
  any-take_front p (suc n) (x ∷ xs) ys le h = ground (arith, any-take_front p n xs ys)

  any-filter :
      (p keep : A → Bool) (xs : List A)
      → any (λ x. p x && keep x) xs ≡ true
      → any p (filter keep xs) ≡ true
  any-filter p keep [] h = h
  any-filter p keep (x ∷ xs) h = ground (arith, any-filter p keep xs)

  any-both :
      (p keep : A → Bool) (xs : List A)
      → All (λ x. keep x ≡ true) xs
      → any p xs ≡ true
      → any (λ x. p x && keep x) xs ≡ true
  any-both p keep [] all h = h
  any-both p keep (x ∷ xs) (k, all) h = ground (arith, any-both p keep xs all)

  All-found :
      (same : A → A → Bool)
      → ((a : A) → same a a ≡ true)
      → (xs ys : List A) → ((p : A → Bool) → any p xs ≡ true → any p ys ≡ true)
      → All (λ x. any (same x) ys ≡ true) xs
  All-found same self [] ys le = tt
  All-found same self (x ∷ xs) ys le = (
    le (same x) (let s = self x in ground arith),
    All-found same self xs ys (λ p h. le p (ground arith)),
  )

module _ {ℓ} {A : Type ℓ} (same : A → A → Bool)
    (trans : (a b c : A) → same a b ≡ true → same b c ≡ true → same a c ≡ true) where
  -- What occurs in a list is the same as something seen or as something that is kept.
  pub any-dedupe :
      (r : A) (seen xs : List A)
      → any (same r) xs ≡ true
      → (any (same r) seen ≡ true) ⊎ (any (same r) (dedupe same seen xs) ≡ true)
  unfolding dedupe
  any-dedupe r seen [] h = inr h
  any-dedupe r seen (x ∷ xs) h = elim (Bool-cases (same r x)) [
    | inl e ↦ elim (Bool-cases (any (same x) seen)) [
      | inl s ↦ inl (any-weaken (same x) (same r) seen (λ a. trans r x a e) s)
      | inr s ↦ inr (ground arith)
    ]
    | inr e ↦
        let skipped = any-dedupe r seen xs (ground arith) in
        let kept = any-dedupe r (x ∷ seen) xs (ground arith) in ground arith
  ]

  dedupe-any :
      (p : A → Bool) (seen xs : List A) → any p (dedupe same seen xs) ≡ true → any p xs ≡ true
  unfolding dedupe
  dedupe-any p seen [] h = h
  dedupe-any p seen (x ∷ xs) h = ground (arith, dedupe-any p seen xs, dedupe-any p (x ∷ seen) xs)

locator_trans :
    (a b c : Option String)
    → same_locator a b ≡ true
    → same_locator b c ≡ true
    → same_locator a c ≡ true
locator_trans none none c h k = k
locator_trans none (some b) c h k = ground arith
locator_trans (some a) none c h k = ground arith
locator_trans (some a) (some b) none h k = ground arith
locator_trans (some a) (some b) (some c) h k = ground (arith, eq_iff a b, eq_iff b c, eq_iff a c)

locator_self : (a : Option String) → same_locator a a ≡ true
locator_self none = refl
locator_self (some a) = eq_refl a

source_trans :
    (a b c : EvidenceRef) → same_source a b ≡ true → same_source b c ≡ true → same_source a c ≡ true
source_trans a b c h k = ground (
  arith,
  eq_iff a.source_type b.source_type,
  eq_iff b.source_type c.source_type,
  eq_iff a.source_type c.source_type,
  eq_iff a.source_id b.source_id,
  eq_iff b.source_id c.source_id,
  eq_iff a.source_id c.source_id,
)

evidence_trans :
    (a b c : EvidenceRef)
    → same_evidence a b ≡ true
    → same_evidence b c ≡ true
    → same_evidence a c ≡ true
evidence_trans a b c h k =
    ground (arith, source_trans a b c, locator_trans a.locator b.locator c.locator)

evidence_self : (a : EvidenceRef) → same_evidence a a ≡ true
evidence_self a = ground (arith, eq_refl a.source_type, eq_refl a.source_id, locator_self a.locator)

evidence-source : (r a : EvidenceRef) → same_evidence r a ≡ true → same_source r a ≡ true
evidence-source r a h = ground arith

-- Every source of the references keeps a slot, while the sources are no more than the slots.
keep_limit-source :
    (r : EvidenceRef) (refs : List EvidenceRef) (limit : ℕ)
    → length (dedupe same_source [] refs) ≤ limit
    → any (same_source r) refs ≡ true
    → any (same_source r) (keep_limit limit refs) ≡ true
keep_limit-source r refs limit few h =
    let firsts = dedupe same_source [] refs in
    let kept = take limit (firsts ++ repeats same_source [] refs) in
    let keep = λ (x : EvidenceRef). any (same_evidence x) kept in
    let there =
      All-found same_evidence evidence_self firsts kept
        (λ p k. any-take_front p limit firsts (repeats same_source [] refs) few k) in
    let first : any (same_source r) firsts ≡ true =
      elim (any-dedupe same_source source_trans r [] refs h) [
        | inl none_seen ↦ ground arith
        | inr k ↦ k
      ] in
    any-filter (same_source r) keep refs (
      dedupe-any same_source source_trans (λ x. same_source r x && keep x) [] refs
        (any-both (same_source r) keep firsts there first))

-- Every source that either side cites is still cited after a merge, where the sources are no more
-- than the slots: the cap, or as many as the candidate has references.
pub merge_evidence-source :
    (existing incoming : List EvidenceRef) (cap : ℕ) (r : EvidenceRef)
    → length (dedupe same_source [] (all_evidence existing incoming)) ≤ max cap (length existing)
    → any (same_evidence r) (existing ++ incoming) ≡ true
    → any (same_source r) (merge_evidence existing incoming cap) ≡ true
unfolding merge_evidence
merge_evidence-source existing incoming cap r few h =
    let refs = all_evidence existing incoming in
    let found : any (same_evidence r) refs ≡ true =
      elim (any-dedupe same_evidence evidence_trans r [] (existing ++ incoming) h) [
        | inl none_seen ↦ ground arith
        | inr k ↦ k
      ] in
    let cited = any-weaken (same_evidence r) (same_source r) refs (evidence-source r) found in
    let slot = keep_limit-source r refs (max cap (length existing)) few cited in
    elim (Bool-cases (leb (length refs) (max cap (length existing)))) [
      | inl e ↦ rw (e, merge_evidence) cited
      | inr e ↦ rw (e, merge_evidence) slot
    ]
