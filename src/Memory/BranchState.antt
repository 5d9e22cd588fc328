-- ===== src/Memory/BranchState.antt =====
-- memory/branch-state.ts: what git says of the branch of a memory. Times are milliseconds.
use Prim.Native.String
use code_butler.Prelude.{
  ℕ, ◌+◌, ◌*◌, String, Bool, true, false, not, Option, none, some, List, [], ◌∷◌, ltb, nat_eq, ◌==◌,
  if◌then◌else◌,
}

pub data BranchState : Type 0 where
  current merged stale active unknown : BranchState

pub record GitBranchFacts : Type 0 where
  pub available : Bool
  pub repo_path : Option String
  pub current_branch : Option String
  pub default_branch : Option String

-- The exit status of git with these arguments in this folder; `none` where git did not run.
abbrev pub Git : Type 0
Git = String → List String → Option ℕ

abbrev pub is_status : ℕ → Option ℕ → Bool
is_status n none = false
is_status n (some m) = nat_eq m n

abbrev pub is_branch : String → Option String → Bool
is_branch b none = false
is_branch b (some c) = c == b

abbrev pub day : ℕ
day = 24 * 60 * 60 * 1000

-- The texts `refs/heads/${branch}`.
abbrev pub ref_of : String → String
ref_of branch = String.◌++◌ "refs/heads/" branch

module _ (git : Git) where
  git_status_for_facts : GitBranchFacts → List String → Option ℕ
  git_status_for_facts facts args = elim facts.repo_path [ none ↦ none | some path ↦ git path args ]

  unfoldable pub local_branch_exists : GitBranchFacts → String → Bool
  unfolding git_status_for_facts
  local_branch_exists facts branch =
      is_status 0
        (git_status_for_facts facts ("show-ref" ∷ "--verify" ∷ "--quiet" ∷ ref_of branch ∷ []))

  pub branch_merged_into_default : GitBranchFacts → String → String → Option Bool
  unfolding git_status_for_facts
  branch_merged_into_default facts branch default =
      let status =
        git_status_for_facts facts ("merge-base" ∷ "--is-ancestor" ∷ branch ∷ default ∷ []) in
      if is_status 0 status then some true else if is_status 1 status then some false else none

  -- The part of `classifyBranch` for a branch that is there.
  abbrev pub by_default : Option Bool → Bool → BranchState
  by_default none is_stale = if is_stale then stale else unknown
  by_default (some true) is_stale = merged
  by_default (some false) is_stale = if is_stale then stale else active

  abbrev pub merged_into : GitBranchFacts → String → Option String → Option Bool
  merged_into facts branch none = none
  merged_into facts branch (some default) = branch_merged_into_default facts branch default

  unfoldable pub classify_branch : String → ℕ → GitBranchFacts → ℕ → ℕ → BranchState
  classify_branch branch latest_memory_at facts stale_days now =
      if not facts.available
      then unknown
      else if is_branch branch facts.current_branch
      then current
      else if not (local_branch_exists facts branch)
      then stale
      else by_default (merged_into facts branch facts.default_branch)
          (ltb (latest_memory_at + stale_days * day) now)

  -- `findDefaultBranch`: the first of the names that is a branch here.
  pub find_default_branch : String → List String → Option String
  find_default_branch path [] = none
  find_default_branch path (name ∷ names) =
      if is_status 0 (git path ("show-ref" ∷ "--verify" ∷ "--quiet" ∷ ref_of name ∷ []))
      then some name
      else find_default_branch path names
