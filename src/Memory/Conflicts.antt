-- ===== src/Memory/Conflicts.antt =====
-- `auditMemoryConflicts` of memory/conflicts.ts: the relations between memories that contradict each
-- other, and the quality of those memories.
pub mod Pairs
mod Tests
use code_butler.Prelude.{
  ℕ, String, Bool, true, false, not, ◌&&◌, ◌||◌, Option, none, some, List, [], ◌∷◌, ◌++◌, map,
  filter, find?, any, all, contains, length, ◌==◌, if◌then◌else◌, Ordering, then_by, sort_by,
  sort_texts, text_leb,
}
use code_butler.Prelude.Assoc.{Assoc}
use code_butler.Exec.{Exec, ok, pure, ◌>>=◌, ◌>>◌, modify, rolled_back}
use code_butler.Storage.{Env, Db, MemoryRelation, LifecycleStatus, current, potentially_contradicts}
use code_butler.Storage.Events.{status_eq}
use code_butler.Storage.Relations.{
  RelationInput, RelationFilter, add_memory_relation, delete_memory_relation, list_memory_relations,
}
use code_butler.Memory.EvidenceMerge.{dedupe}
use code_butler.Memory.Facts.{Fact, Words, memory_facts_conflict}
use code_butler.Memory.Facts.Groups.{group_by_subject}
use code_butler.Memory.Retention.{Quality}

-- `MemoryConflictPair`
pub record ConflictPair : Type 0 where
  pub from_memory_id : String
  pub to_memory_id : String

abbrev pub pair : String → String → ConflictPair
pair a b = record { from_memory_id = a; to_memory_id = b }

-- `[left, right].sort()`
pub canonical_pair : String → String → ConflictPair
canonical_pair a b = if text_leb a b then pair a b else pair b a

-- The texts of `pairKey` are the same; no identifier holds a NUL character.
abbrev pub same_pair : ConflictPair → ConflictPair → Bool
same_pair p q = p.from_memory_id == q.from_memory_id && p.to_memory_id == q.to_memory_id

abbrev pub pair_of : MemoryRelation → ConflictPair
pair_of r = pair r.from_memory_id r.to_memory_id

-- The pairs of the first memory, and then those of the rest.
unfoldable pub find_conflict_pairs : Words → List Fact → List ConflictPair
unfolding canonical_pair
find_conflict_pairs words [] = []
find_conflict_pairs words (a ∷ facts) =
    map (λ b. canonical_pair a.id b.id) (filter (λ b. memory_facts_conflict words a b) facts)
    ++ find_conflict_pairs words facts

abbrev pub all_pairs : Words → Assoc (List Fact) → List ConflictPair
all_pairs words [] = []
all_pairs words ((key, group) ∷ groups) = find_conflict_pairs words group ++ all_pairs words groups

-- `comparePairs`
abbrev pub compare_pairs : (String → String → Ordering) → ConflictPair → ConflictPair → Ordering
compare_pairs locale p q =
    then_by (locale p.from_memory_id q.from_memory_id) (locale p.to_memory_id q.to_memory_id)

pub conflict_pairs : Words → (String → String → Ordering) → List Fact → List ConflictPair
conflict_pairs words locale facts = sort_by (compare_pairs locale) (
    all_pairs words
      (group_by_subject words (filter (λ m. status_eq m.lifecycle_status current) facts)))

abbrev pub additions : List ConflictPair → List MemoryRelation → List ConflictPair
additions pairs existing = filter (λ p. not (any (λ r. same_pair p (pair_of r)) existing)) pairs

-- A relation that is the wrong way round, or that joins no conflicting pair.
abbrev pub is_removed : List ConflictPair → MemoryRelation → Bool
is_removed pairs r =
    let canonical = canonical_pair r.from_memory_id r.to_memory_id in
    not (r.from_memory_id == canonical.from_memory_id) || not (any (same_pair canonical) pairs)

abbrev pub removals : List ConflictPair → List MemoryRelation → List MemoryRelation
removals pairs existing = filter (is_removed pairs) existing

-- `updatePotentialConflictReason`
abbrev pub conflict_reason : List String → Bool → List String
conflict_reason reasons present =
    let next = filter (λ r. not (r == "potential_conflict")) reasons in
    dedupe (λ a b. a == b) [] (if present then next ++ "potential_conflict" ∷ [] else next)

abbrev pub is_empty : List String → Bool
is_empty [] = true
is_empty _ = false

-- `qualityStatusForConflictChange`
abbrev pub conflict_status : Quality → List String → Quality
conflict_status Quality.quarantined reasons =
    if is_empty reasons then Quality.active else Quality.quarantined
conflict_status _ reasons = if is_empty reasons then Quality.active else Quality.needs_review

abbrev same_texts : List String → List String → Bool
same_texts [] [] = true
same_texts (a ∷ rest) (b ∷ rest') = a == b && same_texts rest rest'
same_texts _ _ = false

-- `sameReasons`
abbrev pub same_reasons : List String → List String → Bool
same_reasons a b = same_texts (sort_texts a) (sort_texts b)

abbrev quality_eq : Quality → Quality → Bool
quality_eq Quality.active Quality.active = true
quality_eq Quality.needs_review Quality.needs_review = true
quality_eq Quality.quarantined Quality.quarantined = true
quality_eq _ _ = false

-- The change of kind `update_quality`.
pub record QualityChange : Type 0 where
  pub memory_id : String
  pub previous_status : Quality
  pub next_status : Quality
  pub reasons : List String

abbrev pub involved : List ConflictPair → List String
involved [] = []
involved (p ∷ ps) = p.from_memory_id ∷ p.to_memory_id ∷ involved ps

abbrev pub quality_change : Fact → List String → List QualityChange
quality_change m reasons =
    let status = conflict_status m.quality_status reasons in
    if quality_eq status m.quality_status && same_reasons reasons m.quality_reasons
    then []
    else record {
      memory_id = m.id;
      previous_status = m.quality_status;
      next_status = status;
      reasons = reasons;
    }
      ∷ []

abbrev pub assessed : List Fact → List String → String → List QualityChange
assessed facts conflicting id = elim (find? (λ m. m.id == id) facts) [
  | none ↦ []
  | some m ↦ quality_change m (conflict_reason m.quality_reasons (contains id conflicting))
]

abbrev pub assess_all : List Fact → List String → List String → List QualityChange
assess_all facts conflicting [] = []
assess_all facts conflicting (id ∷ ids) =
    assessed facts conflicting id ++ assess_all facts conflicting ids

-- The quality changes, over the memories that conflict or that a relation names.
pub quality_changes : List Fact → List ConflictPair → List MemoryRelation → List QualityChange
quality_changes facts pairs existing =
    assess_all facts (involved pairs)
      (sort_texts (dedupe (λ a b. a == b) [] (involved pairs ++ involved (map pair_of existing))))

-- `MemoryConflictAuditResult`, with the changes by their kinds.
pub record Audit : Type 0 where
  pub scanned_groups : ℕ
  pub scanned_memories : ℕ
  pub pairs : List ConflictPair
  pub added : List ConflictPair
  pub removed : List MemoryRelation
  pub qualities : List QualityChange

abbrev pub contradictions : RelationFilter
contradictions = record {
  from_memory_id = none;
  to_memory_id = none;
  relation_type = some potentially_contradicts;
}

-- What the audit finds.
pub audit : Env → Words → (String → String → Ordering) → List Fact → Db → Audit
unfolding conflict_pairs quality_changes
audit env words locale facts db =
    let existing = list_memory_relations env contradictions db in
    let current_facts = filter (λ m. status_eq m.lifecycle_status current) facts in
    let pairs = conflict_pairs words locale facts in
    record {
      scanned_groups = length (group_by_subject words current_facts);
      scanned_memories = length current_facts;
      pairs = pairs;
      added = additions pairs existing;
      removed = removals pairs existing;
      qualities = quality_changes facts pairs existing;
    }

module _ (env : Env) (update_memory_quality : QualityChange → Exec Db Unit) (now : String) where
  abbrev pub contradiction : ConflictPair → RelationInput
  contradiction p = record {
    from_memory_id = p.from_memory_id;
    to_memory_id = p.to_memory_id;
    relation_type = potentially_contradicts;
    created_at = some now;
    reason = some "Potential conflict: summaries and evidence differ.";
  }

  abbrev pub each : {A : Type 0} → {B : Type 0} → (A → Exec Db B) → List A → Exec Db Unit
  each work [] = pure tt
  each work (a ∷ rest) = work a >> each work rest

  -- The writes of `fix`, in one transaction.
  pub fix_conflicts : Audit → Exec Db Unit
  fix_conflicts found db = rolled_back db (
      (each (λ r. delete_memory_relation env r.id) found.removed
          >> (each (λ p. add_memory_relation env (contradiction p)) found.added
              >> each update_memory_quality found.qualities))
        db)
