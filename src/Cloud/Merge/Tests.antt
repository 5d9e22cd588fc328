-- ===== src/Cloud/Merge/Tests.antt =====
-- Runs of the merge of one row.
use code_butler.Prelude.{
  ◌*◌, ◌≤◌, ◌<◌, String, Bool, true, false, ◌&&◌, Option, some, none, map_option, [], ◌∷◌, ◌≡◌,
  refl, ◌⊎◌, inl, inr, ◌↔◌, arith, ◌==◌, eq_iff, Bool-cases,
}
use code_butler.Prelude.Assoc.{get, put}
use code_butler.Cloud.Row.{text, Row, identical}
use code_butler.Cloud.Merge.{
  take_remote, insert_remote, flag_conflict, edited_on_both_sides, decided, Reader, newer_by, newer,
  equivalent, conflict, statement_fact, decide_added, decide_known, same_sides, decide_row,
}
use code_butler.Cloud.Merge.Laws.{agrees}
use code_butler.Cloud.Merge.Apply.{Applied, adopt_row, remapped, apply_row}
use code_butler.Cloud.Merge.Adopted.{
  after_merge, TwoEdits, Divergent, deletion_wins, flagged_needs_divergence, merge_converges,
}
use code_butler.Cloud.Merge.Converges.{flagged, one_newer}
use code_butler.Cloud.Merge.Hold.{automatic_merge_hold, large_deletion, hold_exactly}

-- Summaries stand for themselves, and no memory has a statement.
abbrev plain : Reader
plain = record {
  normalize_summary = λ t. t;
  trim = λ t. t;
  parse_statement = λ v t. none;
  sort_fields = λ fs. fs;
}

-- An order of two times.
abbrev later : String → String → Bool
later a b = (a == "2") && (b == "1")

later_asym : (a b : String) → later a b ≡ true → later b a ≡ false
later_asym a b h = elim (Bool-cases (a == "2")) [
  | inl e ↦ rw ((eq_iff a "2").0 e) (ground arith)
  | inr e ↦ ground arith
]

abbrev row : String → String → Row
row summary at =
    ("summary", text summary)
    ∷ ("type", text "decision")
    ∷ ("title", text "t")
    ∷ ("updated_at", text at)
    ∷ []

abbrev base : Row
base = row "old" "0"

abbrev here : Row
here = row "here" "1"

abbrev there : Row
there = row "there" "2"

runs : Unit {0}
unfolding decide_row decide_added decide_known same_sides conflict equivalent newer newer_by
    statement_fact identical apply_row adopt_row remapped put automatic_merge_hold get
runs = tt

flagged_memory :
    decide_row plain later "memories" (some here) (some there) (some base)
    ≡ decided flag_conflict (some edited_on_both_sides)
unfolding runs
flagged_memory = refl

newer_source :
    decide_row plain later "sources" (some here) (some there) (some base)
    ≡ decided take_remote (some edited_on_both_sides)
unfolding runs
newer_source = refl

added : decide_row plain later "sources" none (some there) none ≡ decided insert_remote none
unfolding runs
added = refl

deletion_wins_example :
    map_option
      (λ a. a.held)
      (apply_row plain later [] "memories"
        (decide_row plain later "memories" (some here) none (some base))
        (some here)
        none
        none)
    ≡ some none
deletion_wins_example =
    deletion_wins plain later "memories" [] (some here) none none base (inr refl)

apart : identical base there ≡ false
unfolding runs
apart = refl

same : identical base base ≡ true
unfolding runs
same = refl

abbrev left : Applied
left = record { held = some here; held_elsewhere = none; for_review = true }

left_for_review :
    apply_row plain later [] "memories"
      (decide_row plain later "memories" (some here) (some there) (some base))
      (some here)
      (some there)
      none
    ≡ some left
unfolding runs
left_for_review = refl

flagged_needs_divergence_example :
    TwoEdits plain later "memories" (some here) (some there) (some base)
    ⊎ Divergent plain later "memories" (some there) none
flagged_needs_divergence_example =
    flagged_needs_divergence plain later "memories" [] (some here) (some there) (some base) none
      left left_for_review refl

-- The same memory under another id, in other words.
abbrev elsewhere : Row
elsewhere = ("id", text "m") ∷ row "elsewhere" "1"

divergent :
    map_option
      (λ a. a.for_review)
      (apply_row plain later [] "memories"
        (decide_row plain later "memories" none (some there) none)
        none
        (some there)
        (some elsewhere))
    ≡ some true
unfolding runs
divergent = refl

-- The same text under another id gets the values of the newer row and keeps its id.
converged :
    map_option
      (λ a. a.held_elsewhere)
      (apply_row plain later [] "memories"
        (decide_row plain later "memories" none (some there) none)
        none
        (some there)
        (some (("id", text "m") ∷ row "there" "1")))
    ≡ some (some (put there "id" (text "m")))
unfolding runs
converged = refl

unflagged : flagged (decide_row plain later "sources" (some here) (some there) (some base)) ≡ false
unfolding runs
unflagged = refl

ordered : one_newer later (some here) (some there) ≡ true
unfolding runs
ordered = refl

merge_converges_example :
    (mine theirs : Option Row) × (after_merge plain later "sources"
        (some here)
        (some there)
        (some base)
      ≡ some mine)
    × (after_merge plain later "sources" (some there) (some here) (some base) ≡ some theirs)
    × ((mine ≡ theirs) ⊎ (agrees mine theirs ≡ true))
merge_converges_example =
    merge_converges plain later "sources" (some here) (some there) (some base) later_asym unflagged
      ordered

hold_exactly_example :
    (automatic_merge_hold (record { shared = 100; deleted = 20 }) ≡ some large_deletion)
    ↔ ((20 ≤ 20) × (15 * 100 < 100 * 20))
hold_exactly_example = hold_exactly (record { shared = 100; deleted = 20 })

held : automatic_merge_hold (record { shared = 100; deleted = 20 }) ≡ some large_deletion
unfolding runs
held = refl
