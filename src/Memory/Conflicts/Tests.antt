-- ===== src/Memory/Conflicts/Tests.antt =====
-- Two facts on one port.
use code_butler.Prelude.{String, true, false, none, [], ◌∷◌, any, ◌≡◌, refl}
use code_butler.Storage.{current}
use code_butler.Memory.EvidenceMerge.{dedupe}
use code_butler.Memory.Facts.{
  Fact, Words, Scope, memory_facts_conflict, scopes_disjoint, same_signature,
}
use code_butler.Memory.Retention.{Quality}
use code_butler.Memory.Conflicts.{
  canonical_pair, same_pair, find_conflict_pairs, conflict_reason, conflict_status,
}
use code_butler.Memory.Conflicts.Pairs.{find_conflict_pairs-memory_facts_conflict}

abbrev words : Words
words = record {
  normalize_summary = λ t. t;
  title_key = λ t. t;
  scope_json = λ s. "scope";
  sha256 = λ t. t;
}

abbrev fact : String → String → String → Fact
fact id summary source = record {
  id = id;
  kind = "decision";
  title = "Ports";
  summary = summary;
  layer = none;
  scope = Scope.project;
  evidence = record { source_type = "docs"; source_id = source; locator = none } ∷ [];
  confidence = 8;
  quality_status = Quality.active;
  quality_reasons = [];
  dedupe_key = id;
  subject_key = none;
  updated_at = "2026-01-01";
  promoted_memory_id = none;
  lifecycle_status = current;
  lifecycle_generation = "g";
  status_changed_at = "2026-01-01";
  promoted_at = "2026-01-01";
}

abbrev eighty : Fact
eighty = fact "b" "The port is 80." "x"

abbrev other_port : Fact
other_port = fact "a" "The port is 81." "y"

conflicting : memory_facts_conflict words eighty other_port ≡ true
unfolding memory_facts_conflict scopes_disjoint same_signature
conflicting = refl

resolved :
    conflict_status Quality.needs_review (conflict_reason ("potential_conflict" ∷ []) false)
    ≡ Quality.active
unfolding dedupe
resolved = refl

find_conflict_pairs-memory_facts_conflict_example :
    (any (same_pair (canonical_pair "b" "a")) (find_conflict_pairs words (eighty ∷ other_port ∷ []))
      ≡ true)
    × (any
          (same_pair (canonical_pair "a" "b"))
          (find_conflict_pairs words (other_port ∷ eighty ∷ []))
        ≡ true)
find_conflict_pairs-memory_facts_conflict_example =
    find_conflict_pairs-memory_facts_conflict words [] [] [] eighty other_port conflicting
