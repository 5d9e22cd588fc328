-- ===== src/Memory/EvidenceMerge/Tests.antt =====
-- Runs of the merge of evidence.
use code_butler.Prelude.{
  ◌≤◌, String, true, some, List, [], ◌∷◌, ◌++◌, length, any, max, ◌==◌, ◌≡◌, refl, arith,
}
use code_butler.Memory.EvidenceMerge.{
  EvidenceRef, same_source, same_evidence, dedupe, repeats, all_evidence, merge_evidence,
  merge_related_files,
}
use code_butler.Memory.EvidenceMerge.Sources.{merge_evidence-source}
use code_butler.Memory.EvidenceMerge.Files.{merge_related_files-kept}

abbrev at : String → String → EvidenceRef
at source line = record { source_type = "conversation"; source_id = source; locator = some line }

-- Three places in one conversation, and one in another.
abbrev existing : List EvidenceRef
existing = at "a" "1" ∷ at "a" "2" ∷ []

abbrev incoming : List EvidenceRef
incoming = at "a" "3" ∷ at "b" "1" ∷ []

runs : Unit {0}
unfolding merge_evidence merge_related_files dedupe repeats
runs = tt

-- The new source takes the slot of the second place in the old one.
slot_for_new_source : merge_evidence existing incoming 2 ≡ at "a" "1" ∷ at "b" "1" ∷ []
unfolding runs
slot_for_new_source = refl

few : length (dedupe same_source [] (all_evidence existing incoming)) ≤ max 2 (length existing)
unfolding runs
few = omega arith

cited : any (same_evidence (at "b" "1")) (existing ++ incoming) ≡ true
unfolding runs
cited = refl

merge_evidence-source_example :
    any (same_source (at "b" "1")) (merge_evidence existing incoming 2) ≡ true
merge_evidence-source_example = merge_evidence-source existing incoming 2 (at "b" "1") few cited

merge_related_files-kept_example :
    (any (λ f. f == "x.ts") (merge_related_files ("x.ts" ∷ "x.ts" ∷ []) ("y.ts" ∷ []) 1) ≡ true)
    × (length (merge_related_files ("x.ts" ∷ "x.ts" ∷ []) ("y.ts" ∷ []) 1) ≤ max 1 2)
merge_related_files-kept_example =
    merge_related_files-kept ("x.ts" ∷ "x.ts" ∷ []) ("y.ts" ∷ []) 1 "x.ts" refl
