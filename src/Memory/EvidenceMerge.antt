-- ===== src/Memory/EvidenceMerge.antt =====
-- memory/evidence-merge.ts: the evidence that a candidate keeps when its fact is found again.
pub mod Sources
pub mod Files
mod Tests
use code_butler.Prelude.{
  ℕ, String, Bool, true, false, ◌&&◌, Option, none, some, List, [], ◌∷◌, ◌++◌, length, take, filter,
  any, leb, max, ◌==◌, if◌then◌else◌,
}

-- `EvidenceRef`
pub record EvidenceRef : Type 0 where
  pub source_type : String
  pub source_id : String
  pub locator : Option String

abbrev pub same_locator : Option String → Option String → Bool
same_locator none none = true
same_locator (some a) (some b) = a == b
same_locator _ _ = false

-- The texts of `sourceKey` are the same, and those of `evidenceKey`.
abbrev pub same_source : EvidenceRef → EvidenceRef → Bool
same_source a b = a.source_type == b.source_type && a.source_id == b.source_id

abbrev pub same_evidence : EvidenceRef → EvidenceRef → Bool
same_evidence a b = same_source a b && same_locator a.locator b.locator

module _ {ℓ} {A : Type ℓ} (same : A → A → Bool) where
  -- The elements that are not the same as one seen before.
  unfoldable pub dedupe : List A → List A → List A
  dedupe seen [] = []
  dedupe seen (x ∷ xs) =
      let skip = dedupe seen xs in
      let keep = dedupe (x ∷ seen) xs in if any (same x) seen then skip else x ∷ keep

  -- The elements that are.
  unfoldable pub repeats : List A → List A → List A
  repeats seen [] = []
  repeats seen (x ∷ xs) =
      let skip = repeats seen xs in
      let keep = repeats (x ∷ seen) xs in if any (same x) seen then x ∷ skip else keep

-- `all`
abbrev pub all_evidence : List EvidenceRef → List EvidenceRef → List EvidenceRef
all_evidence existing incoming = dedupe same_evidence [] (existing ++ incoming)

-- The references of `all` are told apart by their keys, so `kept.has` is a search by key.
abbrev pub keep_limit : ℕ → List EvidenceRef → List EvidenceRef
keep_limit limit refs =
    let kept = take limit (dedupe same_source [] refs ++ repeats same_source [] refs) in
    filter (λ r. any (same_evidence r) kept) refs

unfoldable pub merge_evidence : List EvidenceRef → List EvidenceRef → ℕ → List EvidenceRef
merge_evidence existing incoming cap =
    let refs = all_evidence existing incoming in
    let limit = max cap (length existing) in
    if leb (length refs) limit then refs else keep_limit limit refs

unfoldable pub merge_related_files : List String → List String → ℕ → List String
merge_related_files existing incoming cap =
    take (max cap (length existing)) (dedupe (λ a b. b == a) [] (existing ++ incoming))
