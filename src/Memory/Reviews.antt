-- ===== src/Memory/Reviews.antt =====
-- memory/review-state.ts: the latest review of a memory, and whether it still holds.
use code_butler.Prelude.{
  String, Bool, true, false, not, ◌&&◌, Option, none, some, List, find?, contains, ◌==◌,
}
use code_butler.Memory.Retention.{Category, category_eq}

-- A row of `memory_review_resolutions`.
pub record ReviewRow : Type 0 where
  pub id : String
  pub memory_id : String
  pub category : Category
  pub memory_version : String
  pub context_fingerprint : String
  pub action : String
  pub reviewed_at : String
  pub actor : String
  pub replacement_memory_id : Option String
  pub replacement_category : Option Category

-- The reviews, the latest first, and the ids of those that were reverted.
pub record ReviewTables : Type 0 where
  pub reviews : List ReviewRow
  pub compensations : List String

-- `MemoryReviewContext`
pub record ReviewContext : Type 0 where
  pub memory_version : String
  pub accepted_tokens : List String

-- `MemoryReviewSummary`, in the fields that promotion reads.
pub record ReviewSummary : Type 0 where
  pub action : String
  pub reviewed_at : String
  pub actor : String
  pub current : Bool

abbrev pub accepts_review_token : ReviewContext → String → Bool
accepts_review_token context token = contains token context.accepted_tokens

abbrev pub in_force : ReviewTables → ReviewRow → Bool
in_force tables r = not (contains r.id tables.compensations)

unfoldable pub read_latest_review : ReviewTables → String → Category → Option ReviewRow
read_latest_review tables memory_id category =
    find? (λ r. r.memory_id == memory_id && category_eq r.category category && in_force tables r)
      tables.reviews

abbrev pub review_current : ReviewContext → ReviewRow → Bool
review_current context latest = elim (latest.action == "verify") [
  | true ↦
      latest.memory_version == context.memory_version
      && accepts_review_token context latest.context_fingerprint
  | false ↦ true
]

abbrev pub review_summary : ReviewRow → Bool → ReviewSummary
review_summary row current = record {
  action = row.action;
  reviewed_at = row.reviewed_at;
  actor = row.actor;
  current = current;
}

unfoldable pub current_memory_review :
    ReviewTables → Category → String → ReviewContext → Option ReviewSummary
unfolding read_latest_review
current_memory_review tables category memory_id context =
    elim (read_latest_review tables memory_id category) [
      | none ↦ none
      | some latest ↦ some (review_summary latest (review_current context latest))
    ]
