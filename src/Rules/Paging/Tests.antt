-- ===== src/Rules/Paging/Tests.antt =====
-- Three rules, of which a page holds one.
use code_butler.Prelude.{
  ℕ, suc, ◌*◌, ◌+◌, true, false, none, some, String, List, [], ◌∷◌, length, ◌≡◌, refl,
}
use code_butler.Rules.Paging.{
  Selected, RulePage, Diagnostics, add_diagnostics, push_entry, make_room, serve, diagnose,
  finish_page, rule_page,
}
use code_butler.Rules.Paging.Serving.{ids}
use code_butler.Rules.Paging.Reading.{read_pages, read_pages_complete}

abbrev rule : String → Selected
rule id = record {
  rule = record { id = id; must = true; core = false; matched_by = "core" ∷ []; content = "" };
  entry = record { id = id; trigger_summary = ""; verified_subjects = none };
}

abbrev three : List Selected
three = rule "a" ∷ rule "b" ∷ rule "c" ∷ []

abbrev toy_size : RulePage → ℕ
toy_size page = 10000 * length page.rules + 10 * length page.conflicts

abbrev no_diagnostics : Diagnostics
no_diagnostics = record { conflicts = "x" ∷ []; invalid = []; not_applicable = [] }

runs : Unit {0}
unfolding add_diagnostics push_entry make_room serve diagnose finish_page rule_page read_pages
runs = tt

first_page : (rule_page toy_size false 12288 "r" no_diagnostics three 0).next_cursor ≡ some 1
unfolding runs
first_page = refl

read_pages_complete_example :
    read_pages toy_size false 12288 "r" no_diagnostics three (suc (length three)) 0
    ≡ some (ids three)
unfolding runs
read_pages_complete_example =
    read_pages_complete toy_size false 12288 "r" no_diagnostics three (refl, (refl, (refl, tt)))
