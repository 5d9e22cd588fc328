-- ===== src/Rules/Merge.antt =====
-- rules/merge.ts: the three-way merge of the rule files of two devices. A rule's state is the list
-- of its variants; more than one variant is a conflict.
pub mod Texts
pub mod Combine
pub mod Symmetric
pub mod Kept
mod Tests
use Prim.Native.String.{compare}
use code_butler.Prelude.{
  String, Bool, true, false, not, ◌&&◌, Option, none, some, List, [], ◌∷◌, ◌++◌, map, filter, ltb,
  length, as_set, sort_by, Ordering, ◌==◌, if◌then◌else◌, ℕ, is_some,
}
use code_butler.Prelude.Assoc.{Assoc, get, put, keys}
use code_butler.Prelude.Collect.{set_each}
use code_butler.Prelude.KeyedMap.{values}

pub record RuleVariant : Type 0 where
  pub hash : String
  pub bytes : Option String
  pub devices : List String

abbrev pub RuleState : Type 0
RuleState = List RuleVariant

abbrev pub RulesState : Type 0
RulesState = Assoc RuleState

-- `contentHash(JSON.stringify(...))` of a list of hashes, and `localeCompare`.
pub record RulesHost : Type 0 where
  pub digest : List String → String
  pub locale_compare : String → String → Ordering

-- `[...new Set(texts)].sort()`
unfoldable pub sorted_set : List String → List String
sorted_set texts = sort_by compare (as_set texts)

abbrev pub deleted_variant : RuleVariant
deleted_variant = record { hash = "deleted"; bytes = none; devices = [] }

-- `state ?? [{ hash: "deleted", devices: [] }]`
abbrev pub variants_of : Option RuleState → RuleState
variants_of none = deleted_variant ∷ []
variants_of (some state) = state

abbrev pub devices_of : Option RuleVariant → List String
devices_of none = []
devices_of (some v) = v.devices

unfoldable pub add_variant : Assoc RuleVariant → RuleVariant → Assoc RuleVariant
add_variant variants v =
    put variants v.hash
      (record v { devices = sorted_set (devices_of (get variants v.hash) ++ v.devices) })

unfoldable pub add_variants : Assoc RuleVariant → List RuleVariant → Assoc RuleVariant
add_variants variants [] = variants
add_variants variants (v ∷ vs) = add_variants (add_variant variants v) vs

unfoldable pub add_states : Assoc RuleVariant → List (Option RuleState) → Assoc RuleVariant
add_states variants [] = variants
add_states variants (state ∷ states) = add_states (add_variants variants (variants_of state)) states

module _ (h : RulesHost) where
  unfoldable pub combine : List (Option RuleState) → RuleState
  combine states = sort_by (λ a b. h.locale_compare a.hash b.hash) (values (add_states [] states))

  abbrev pub hashes : RuleState → List String
  hashes [] = []
  hashes (v ∷ vs) = v.hash ∷ hashes vs

  abbrev pub state_or_empty : Option RuleState → RuleState
  state_or_empty none = []
  state_or_empty (some state) = state

  unfoldable pub state_hash : Option RuleState → String
  state_hash state = h.digest (sort_by compare (hashes (state_or_empty state)))

  -- `l && combine(l, r)`
  abbrev pub combine_if : Option RuleState → Option RuleState → Option RuleState
  combine_if none r = none
  combine_if (some l) r = some (combine (some l ∷ r ∷ []))

  -- The value of one rule, given its states in the base, here and there.
  unfoldable pub merge_state :
      Option RuleState → Option RuleState → Option RuleState → Option RuleState
  merge_state b l r =
      if state_hash l == state_hash r
      then combine_if l r
      else if state_hash l == state_hash b
      then r
      else if state_hash r == state_hash b
      then l
      else some (combine (l ∷ r ∷ []))

  -- `value && !(value.length === 1 && value[0].hash === "deleted")`
  abbrev pub unless_deleted : Option RuleState → Option RuleState
  unless_deleted none = none
  unless_deleted (some []) = some []
  unless_deleted (some (v ∷ [])) = if v.hash == "deleted" then none else some (v ∷ [])
  unless_deleted (some (v ∷ w ∷ vs)) = some (v ∷ w ∷ vs)

  abbrev pub merged_rule : RulesState → RulesState → RulesState → String → Option RuleState
  merged_rule base local remote id =
      unless_deleted (merge_state (get base id) (get local id) (get remote id))

  unfoldable pub merge_rules : RulesState → RulesState → RulesState → RulesState
  merge_rules base local remote =
      set_each (merged_rule base local remote) []
        (as_set (keys base ++ (keys local ++ keys remote)))
