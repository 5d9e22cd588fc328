-- ===== src/Memory/Retention/Due.antt =====
-- When a memory of a layer of this device is archived.
use code_butler.Prelude.{
  ℕ, ◌+◌, ◌*◌, ◌≤◌, String, Bool, true, false, Option, none, some, List, ◌≡◌, ◌≢◌, refl, ◌⊎◌, inl,
  inr, ◌↔◌, ltb, arith, Option-cases,
}
use code_butler.Memory.BranchState.{
  BranchState, Git, GitBranchFacts, day, local_branch_exists, classify_branch, by_default,
  merged_into,
}
use code_butler.Memory.Retention.{
  archive, skip, Policy, Item, Review, suppressed, past_limit, decide_branch, decide_device,
  idle_days_at, state_at, archived_already, decide,
}

module _ (git : Git) (parse_date : String → ℕ) (reviews : List Review) (policy : Policy)
    (facts : GitBranchFacts) where
  -- What the policy asks of an item of a device layer or of a branch layer, after `idle` days.
  abbrev pub DueWith : ℕ → ℕ → Item → Option String → Type 0
  DueWith now idle item none = past_limit policy.device_max_idle_days idle ≡ true
  DueWith now idle item (some name) =
      ((state_at git parse_date reviews policy facts now item name ≡ BranchState.merged)
        × (policy.archive_merged ≡ true))
      ⊎ ((state_at git parse_date reviews policy facts now item name ≡ BranchState.stale)
          × (((policy.archive_deleted ≡ true) × (local_branch_exists git facts name ≡ false))
              ⊎ (past_limit policy.branch_max_idle_days idle ≡ true)))

  abbrev pub Due : ℕ → Item → Type 0
  Due now item =
      DueWith now (idle_days_at git parse_date reviews policy facts now item) item item.branch

  device_archive :
      (idle : ℕ)
      → ((decide_device git parse_date reviews policy facts idle).decision ≡ archive)
        ↔ (past_limit policy.device_max_idle_days idle ≡ true)
  unfolding decide_device
  device_archive idle = (λ h. ground arith, λ h. ground arith)

  branch_archive :
      (name : String) (idle : ℕ) (s : BranchState)
      → ((decide_branch git parse_date reviews policy facts name idle s).decision ≡ archive) ↔ (
          ((s ≡ BranchState.merged) × (policy.archive_merged ≡ true))
          ⊎ ((s ≡ BranchState.stale)
              × (((policy.archive_deleted ≡ true) × (local_branch_exists git facts name ≡ false))
                  ⊎ (past_limit policy.branch_max_idle_days idle ≡ true))))
  unfolding decide_branch
  branch_archive name idle BranchState.unknown = (λ h. ground arith, λ h. ground arith)
  branch_archive name idle BranchState.current = (λ h. ground arith, λ h. ground arith)
  branch_archive name idle BranchState.active = (λ h. ground arith, λ h. ground arith)
  branch_archive name idle BranchState.merged = (λ h. inl (refl, ground arith), λ h. ground arith)
  branch_archive name idle BranchState.stale = (λ h. inr (refl, ground arith), λ h. ground arith)

  -- An item is archived exactly if no review retains this version of it, it is not archived yet,
  -- the grace period has passed, and its layer is due: a device layer past its longest idle time,
  -- a branch layer if the branch is merged and the policy archives merged branches, or if the
  -- branch is stale and either gone, where the policy archives deleted branches, or past its
  -- longest idle time.
  pub decide-archive :
      (now : ℕ) (item : Item)
      → ((decide git parse_date reviews policy facts now item).decision ≡ archive) ↔ (
          (suppressed reviews item ≡ false)
          × (archived_already git parse_date reviews policy facts item ≡ false)
          × (policy.grace_days ≤ idle_days_at git parse_date reviews policy facts now item)
          × Due now item)
  unfolding decide
  decide-archive now item =
      let idle = idle_days_at git parse_date reviews policy facts now item in
      elim (Option-cases item.branch) [
        | inl e ↦
            rw e
              ((λ h. ground (arith, device_archive idle), λ h. ground (arith, device_archive idle)))
        | inr (name, e) ↦
            let state = state_at git parse_date reviews policy facts now item name in
            rw e (
              (
                λ h. ground (arith, branch_archive name idle state),
                λ h. ground (arith, branch_archive name idle state),
              ))
      ]

  stays_past :
      (most : Option ℕ) (i j : ℕ) → i ≤ j → past_limit most i ≡ true → past_limit most j ≡ true
  stays_past none i j le h = h
  stays_past (some m) i j le h = ground arith

  by_default_later :
      (m : Option Bool) (a b : Bool)
      → (a ≡ true → b ≡ true)
      → ((by_default git m a ≡ BranchState.merged) → by_default git m b ≡ BranchState.merged)
        × ((by_default git m a ≡ BranchState.stale) → by_default git m b ≡ BranchState.stale)
  by_default_later none a b le = (λ h. ground arith, λ h. ground arith)
  by_default_later (some true) a b le = (λ h. refl, λ h. ground arith)
  by_default_later (some false) a b le = (λ h. ground arith, λ h. ground arith)

  -- A branch that is merged or stale is so at any later time, for the same answers of git.
  state_later :
      (now after : ℕ) (item : Item) (name : String)
      → now ≤ after
      → ((state_at git parse_date reviews policy facts now item name ≡ BranchState.merged)
          → state_at git parse_date reviews policy facts after item name ≡ BranchState.merged)
        × ((state_at git parse_date reviews policy facts now item name ≡ BranchState.stale)
            → state_at git parse_date reviews policy facts after item name ≡ BranchState.stale)
  unfolding classify_branch
  state_later now after item name le =
      let limit = parse_date item.last_touched_at + policy.grace_days * day in
      let aged =
        by_default_later (merged_into git facts name facts.default_branch) (ltb limit now)
          (ltb limit after) (λ h. ground arith) in
      (λ h. ground (arith, aged), λ h. ground (arith, aged))

  idle_later :
      (now after : ℕ) (item : Item)
      → now ≤ after
      → idle_days_at git parse_date reviews policy facts now item
        ≤ idle_days_at git parse_date reviews policy facts after item
  idle_later now after item le = omega arith

  due_later :
      (now after : ℕ) (item : Item) (br : Option String)
      → now ≤ after
      → DueWith now (idle_days_at git parse_date reviews policy facts now item) item br
      → DueWith after (idle_days_at git parse_date reviews policy facts after item) item br
  due_later now after item none le h =
      stays_past policy.device_max_idle_days
        (idle_days_at git parse_date reviews policy facts now item)
        (idle_days_at git parse_date reviews policy facts after item) (idle_later now after item le)
        h
  due_later now after item (some name) le (inl (merged, kept)) =
      inl ((state_later now after item name le).0 merged, kept)
  due_later now after item (some name) le (inr (stale, inl gone)) =
      inr ((state_later now after item name le).1 stale, inl gone)
  due_later now after item (some name) le (inr (stale, inr past)) = inr (
    (state_later now after item name le).1 stale,
    inr (
        stays_past policy.branch_max_idle_days
          (idle_days_at git parse_date reviews policy facts now item)
          (idle_days_at git parse_date reviews policy facts after item)
          (idle_later now after item le) past),
  )

  -- What is archived at one time is archived at any later time, for the same reviews, policy and
  -- answers of git.
  pub decide-archive_later :
      (now after : ℕ) (item : Item)
      → now ≤ after
      → (decide git parse_date reviews policy facts now item).decision ≡ archive
      → (decide git parse_date reviews policy facts after item).decision ≡ archive
  decide-archive_later now after item le h =
      let (free, fresh, grace, due) = (decide-archive now item).0 h in
      let more = idle_later now after item le in
      (decide-archive after item).1
        (free, fresh, omega arith, due_later now after item item.branch le due)

  -- Where git could not be asked, no memory of a branch layer is archived.
  pub decide-no_git :
      (now : ℕ) (item : Item)
      → facts.available ≡ false
      → item.branch ≢ none
      → (decide git parse_date reviews policy facts now item).decision ≡ skip
  unfolding decide decide_branch classify_branch
  decide-no_git now item off h = elim (Option-cases item.branch) [
    | inl e ↦ elim (h e) [ ]
    | inr (name, e) ↦ rw (e, off) (ground arith)
  ]
