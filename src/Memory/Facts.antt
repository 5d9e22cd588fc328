-- ===== src/Memory/Facts.antt =====
-- What memories state, and when two of them agree or contradict each other: `scopesDisjoint` and
-- `scopeKey` of memory/scope.ts, memory/evidence-signature.ts, memory/conflicts.ts.
pub mod Groups
use Prim.Native.String
use code_butler.Prelude.{
  ℕ, String, Bool, true, false, not, ◌&&◌, ◌||◌, Option, none, some, List, [], ◌∷◌, all, any,
  contains, ◌==◌, if◌then◌else◌,
}
use code_butler.Storage.{or_else, LifecycleStatus}
use code_butler.Memory.EvidenceMerge.{EvidenceRef, same_evidence}
use code_butler.Memory.Retention.{Quality}

-- `MemoryScope`, as `normalizeScope` leaves it in the tables.
pub data Scope : Type 0 where
  project unspecified : Scope
  conditional :
      (platforms architectures shells : Option (List String)) → (condition : Option String) → Scope

-- The text functions of the runtime: Unicode normalization, JSON and hashes.
pub record Words : Type 0 where
  pub normalize_summary : String → String
  -- the title in lower case, with a dash for what is no letter and no number
  pub title_key : String → String
  pub scope_json : Scope → String
  pub sha256 : String → String

-- A candidate or a durable memory, in the columns that promotion and triage read. The confidence
-- stands by a whole number on some fixed scale, since it is only compared.
pub record Fact : Type 0 where
  pub id : String
  pub kind : String
  pub title : String
  pub summary : String
  pub layer : Option String
  pub scope : Scope
  pub evidence : List EvidenceRef
  pub confidence : ℕ
  pub quality_status : Quality
  pub quality_reasons : List String
  pub dedupe_key : String
  pub subject_key : Option String
  pub updated_at : String
  pub promoted_memory_id : Option String
  pub lifecycle_status : LifecycleStatus
  pub lifecycle_generation : String
  pub status_changed_at : String
  pub promoted_at : String

-- Both lists are given, and they have nothing in common.
abbrev pub lists_disjoint : Option (List String) → Option (List String) → Bool
lists_disjoint (some a) (some b) = not (any (λ v. contains v b) a)
lists_disjoint _ _ = false

unfoldable pub scopes_disjoint : Scope → Scope → Bool
scopes_disjoint (conditional p a s _) (conditional p' a' s' _) =
    lists_disjoint p p' || lists_disjoint a a' || lists_disjoint s s'
scopes_disjoint _ _ = false

-- The texts of `createEvidenceSignature` are the same: the sorted sets of the references' keys.
abbrev pub covers_evidence : List EvidenceRef → List EvidenceRef → Bool
covers_evidence a b = all (λ x. any (same_evidence x) b) a

unfoldable pub same_signature : List EvidenceRef → List EvidenceRef → Bool
same_signature a b = covers_evidence a b && covers_evidence b a

module _ (words : Words) where
  unfoldable pub scope_key : Scope → String
  scope_key unspecified = "unspecified"
  scope_key scope = words.sha256 (words.scope_json scope)

  -- `createMemorySubjectKey` of memory/lifecycle.ts
  unfoldable pub create_memory_subject_key : String → String → String
  create_memory_subject_key kind title =
      let key = words.title_key title in
      String.◌++◌ (String.◌++◌ kind ":") (if key == "" then "untitled" else key)

  unfoldable pub memory_subject_group_key : Fact → String
  unfolding create_memory_subject_key
  memory_subject_group_key m =
      String.◌++◌ (String.◌++◌ m.kind "\0")
        (or_else m.subject_key (create_memory_subject_key m.kind m.title))

  abbrev pub same_summary : Fact → Fact → Bool
  same_summary a b = words.normalize_summary a.summary == words.normalize_summary b.summary

  unfoldable pub memory_facts_conflict : Fact → Fact → Bool
  unfolding scopes_disjoint same_signature
  memory_facts_conflict left right =
      if scopes_disjoint left.scope right.scope
      then false
      else if same_summary left right
      then false
      else not (same_signature left.evidence right.evidence)
