-- ===== src/Memory/Supersession/Tests.antt =====
-- Runs of the search.
use code_butler.Prelude.{String, true, false, some, none, List, [], ◌∷◌, ◌≡◌, ◌≢◌, ◌↔◌, refl}
use code_butler.Storage.{MemoryRelation, supersedes}
use code_butler.Memory.Supersession.{would_create_supersession_cycle, Reach}
use code_butler.Memory.Supersession.Search.{search_correct}

abbrev rel : String → String → MemoryRelation
rel from to = record {
  id = from;
  from_memory_id = from;
  to_memory_id = to;
  relation_type = supersedes;
  created_at = "2026-01-01T00:00:00.000Z";
  reason = none;
}

-- "c" replaced "b", which replaced "a"; a diamond over "d".
abbrev chain : List MemoryRelation
chain = rel "c" "b" ∷ rel "b" "a" ∷ rel "c" "d" ∷ rel "d" "a" ∷ []

cycle_found : would_create_supersession_cycle chain "a" "c" ≡ some true
unfolding would_create_supersession_cycle
cycle_found = refl

no_cycle_found : would_create_supersession_cycle chain "c" "a" ≡ some false
unfolding would_create_supersession_cycle
no_cycle_found = refl

search_correct_example :
    (would_create_supersession_cycle chain "a" "c" ≢ none)
    × ((would_create_supersession_cycle chain "a" "c" ≡ some true) ↔ Reach chain "c" "a")
search_correct_example = search_correct chain "a" "c"
