-- ===== src/Rules/Paging.antt =====
-- rules/match.ts, `getApplicableRules`: how the selected rules are cut into pages, each of which
-- names the offset of the next.
pub mod Reason
pub mod Serving
pub mod Reading
mod Tests
use code_butler.Prelude.{
  ℕ, zero, suc, ◌+◌, ◌*◌, String, Bool, true, false, not, ◌&&◌, ◌||◌, Option, none, some, List, [],
  ◌∷◌, ◌++◌, map, filter, any, length, as_set, ltb, nat_eq, ◌==◌, if◌then◌else◌,
}
use code_butler.Rules.Paging.Reason.{reason_kind}

abbrev pub page_bytes : ℕ
page_bytes = 12 * 1024

-- A rule that is served; `content` stands for its other fields.
pub record ServedRule : Type 0 where
  pub id : String
  pub must : Bool
  pub core : Bool
  pub matched_by : List String
  pub content : String

pub record CatalogEntry : Type 0 where
  pub id : String
  pub trigger_summary : String
  pub verified_subjects : Option ℕ

pub data PageEntry : Type 0 where
  whole : (rule : ServedRule) → PageEntry
  summary : (entry : CatalogEntry) → PageEntry

-- A selected rule, with its entry in the catalog.
pub record Selected : Type 0 where
  pub rule : ServedRule
  pub entry : CatalogEntry

pub record InvalidRule : Type 0 where
  pub file : String
  pub error : String

pub record NotApplicable : Type 0 where
  pub id : String
  pub reasons : List String

-- The cursor is its offset, all cursors being of one catalog revision.
pub record RulePage : Type 0 where
  pub catalog_revision : String
  pub total_matches : ℕ
  pub rules : List PageEntry
  pub required_remaining : ℕ
  pub next_cursor : Option ℕ
  pub restart_required : Bool
  pub conflicts : List String
  pub invalid : List InvalidRule
  pub not_applicable : List NotApplicable
  pub diagnostics_truncated : Bool
  pub oversized : List String

pub record Diagnostics : Type 0 where
  pub conflicts : List String
  pub invalid : List InvalidRule
  pub not_applicable : List NotApplicable

-- `result` before anything is pushed.
abbrev pub empty_page : String → ℕ → RulePage
empty_page revision total = record {
  catalog_revision = revision;
  total_matches = total;
  rules = [];
  required_remaining = 0;
  next_cursor = none;
  restart_required = false;
  conflicts = [];
  invalid = [];
  not_applicable = [];
  diagnostics_truncated = false;
  oversized = [];
}

abbrev pub required : Selected → Bool
required s = s.rule.must || s.rule.core

abbrev pub drop {ℓ} : {A : Type ℓ} → ℕ → List A → List A
drop zero xs = xs
drop (suc n) [] = []
drop (suc n) (x ∷ xs) = drop n xs

-- `list.pop()`
abbrev pub drop_last {ℓ} : {A : Type ℓ} → List A → List A
drop_last [] = []
drop_last (x ∷ []) = []
drop_last (x ∷ y ∷ ys) = x ∷ drop_last (y ∷ ys)

abbrev pub count_required : List Selected → ℕ
count_required selected = length (filter required selected)

-- `list.push(value)` until the diagnostics have their share of the page.
module _ {V : Type 0} (too_large : RulePage → Bool) (with_list : RulePage → List V → RulePage) where
  unfoldable pub add_diagnostics : RulePage → List V → List V → RulePage
  add_diagnostics page listed [] = with_list page listed
  add_diagnostics page listed (v ∷ vs) =
      let more = add_diagnostics page (listed ++ (v ∷ [])) vs in
      if too_large (with_list page (listed ++ (v ∷ [])))
      then record (with_list page listed) { diagnostics_truncated = true }
      else more

-- `size` is the length in bytes of what `JSON.stringify` writes.
module _ (size : RulePage → ℕ) (catalog : Bool) (budget : ℕ) where
  abbrev pub entry_of : Selected → PageEntry
  entry_of s = if catalog then summary s.entry else whole s.rule

  -- The entry is pushed, with what would remain after it.
  unfoldable pub push_entry : RulePage → ℕ → Selected → List Selected → RulePage
  push_entry page index s rest = record page {
    rules = page.rules ++ (entry_of s ∷ []);
    next_cursor = some (index + 1);
    required_remaining = count_required rest;
  }

  abbrev pub shorten : PageEntry → PageEntry
  shorten (whole rule) =
      whole (record rule { matched_by = as_set (map reason_kind rule.matched_by) })
  shorten (summary entry) = summary entry

  abbrev pub over : RulePage → Bool
  over page = ltb budget (size page)

  -- The only rule of a full page takes the place of the diagnostics.
  unfoldable pub make_room : RulePage → RulePage
  make_room page =
      if over page && nat_eq (length page.rules) 1 && nat_eq budget page_bytes
      then record page {
        rules = map shorten page.rules;
        conflicts = [];
        invalid = [];
        not_applicable = [];
        diagnostics_truncated = true;
      }
      else page

  -- What no longer fits is taken off; a rule that does not fit on a page of its own is reported.
  abbrev pub popped : RulePage → ℕ → Selected → List PageEntry → RulePage × ℕ
  popped page index s [] =
      (record page { rules = []; oversized = page.oversized ++ (s.rule.id ∷ []) }, index + 1)
  popped page index s (e ∷ es) = (record page { rules = e ∷ es }, index)

  abbrev pub take_off : RulePage → ℕ → Selected → RulePage × ℕ
  take_off page index s = popped page index s (drop_last page.rules)

  -- The loop over the rules from `index` on, and the index that it ends at.
  unfoldable pub serve : RulePage → ℕ → List Selected → RulePage × ℕ
  serve page index [] = (page, index)
  serve page index (s ∷ rest) =
      let tried = make_room (push_entry page index s rest) in
      let next = serve tried (index + 1) rest in if over tried then take_off tried index s else next

  -- `requiredRemaining` and `nextCursor` at the end of the page.
  unfoldable pub finish_page : List Selected → RulePage × ℕ → RulePage
  finish_page selected (page, index) = record page {
    required_remaining =
        count_required (drop index selected)
        + length (filter (λ id. any (λ s. s.rule.id == id && required s) selected) page.oversized);
    next_cursor = if ltb index (length selected) then some index else none;
  }

  -- The conflicts, the invalid rules and the rules that do not apply, each bounded.
  unfoldable pub diagnose : Diagnostics → RulePage → RulePage
  diagnose d page =
      let too_large : RulePage → Bool = λ p. ltb 2048 (size p) || ltb budget (3 * size p) in
      let p1 = add_diagnostics too_large (λ p l. record p { conflicts = l }) page [] d.conflicts in
      let p2 = add_diagnostics too_large (λ p l. record p { invalid = l }) p1 [] d.invalid in
      add_diagnostics too_large (λ p l. record p { not_applicable = l }) p2 [] d.not_applicable

  -- The page from `offset` on.
  unfoldable pub rule_page : String → Diagnostics → List Selected → ℕ → RulePage
  rule_page revision d selected offset =
      let start = empty_page revision (length selected) in
      let served = finish_page selected (serve (diagnose d start) offset (drop offset selected)) in
      if ltb (length selected) offset then record start { restart_required = true } else served
