-- ===== src/Cloud/Merge/Hold.antt =====
-- `automaticMergeHold` of cloud/merge.ts. The shares are whole percents here: the products of the
-- source, in double precision, compare with a count as the exact ones do.
use code_butler.Prelude.{
  ℕ, ◌*◌, ◌≤◌, ◌<◌, ◌&&◌, Option, none, some, ◌≡◌, ◌↔◌, leb, ltb, if◌then◌else◌, arith,
}

pub record DeletionSummary : Type 0 where
  pub shared : ℕ
  pub deleted : ℕ

pub data HoldReason : Type 0 where
  large_deletion : HoldReason

abbrev pub hold_min_deleted : ℕ
hold_min_deleted = 20

abbrev pub hold_small_project : ℕ
hold_small_project = 50

abbrev pub hold_share : ℕ
hold_share = 15

abbrev pub hold_small_project_share : ℕ
hold_small_project_share = 30

unfoldable pub automatic_merge_hold : DeletionSummary → Option HoldReason
automatic_merge_hold s =
    let share = if ltb s.shared hold_small_project then hold_small_project_share else hold_share in
    if leb hold_min_deleted s.deleted && ltb (s.shared * share) (s.deleted * 100)
    then some large_deletion
    else none

-- An automatic merge waits for a person exactly if it deletes at least twenty shared memories and
-- more than 15 in a hundred of them. The higher share of a small project never decides.
pub hold_exactly :
    (s : DeletionSummary)
    → (automatic_merge_hold s ≡ some large_deletion)
      ↔ ((20 ≤ s.deleted) × (15 * s.shared < 100 * s.deleted))
unfolding automatic_merge_hold
hold_exactly s = (λ h. (ground arith, ground arith), λ h. ground arith)

-- A merge that deletes more of as many memories is held too.
pub hold_monotone :
    (s t : DeletionSummary)
    → s.shared ≡ t.shared
    → s.deleted ≤ t.deleted
    → automatic_merge_hold s ≡ some large_deletion
    → automatic_merge_hold t ≡ some large_deletion
hold_monotone s t same more h =
    let (few, share) = (hold_exactly s).0 h in (hold_exactly t).1 (omega arith, omega arith)
