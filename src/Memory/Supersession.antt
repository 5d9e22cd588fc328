-- ===== src/Memory/Supersession.antt =====
-- `wouldCreateSupersessionCycle` of memory/lifecycle-service.ts, a depth-first search.
pub mod Search
pub mod Acyclic
mod Tests
use code_butler.Prelude.{
  ℕ, zero, suc, ◌+◌, String, Bool, true, false, Option, none, some, List, [], ◌∷◌, ◌++◌, any, ◌&&◌,
  length, contains, ◌==◌, ◌≡◌, if◌then◌else◌,
}
use code_butler.Storage.{MemoryRelation}

-- `adjacency.get(id) ?? []`
pub outgoing : List MemoryRelation → String → List String
outgoing [] id = []
outgoing (r ∷ rs) id =
    let rest = outgoing rs id in if r.from_memory_id == id then r.to_memory_id ∷ rest else rest

-- `pending.push(...ids)`, with the top of the stack at the head.
pub push_all : List String → List String → List String
push_all [] pending = pending
push_all (id ∷ ids) pending = push_all ids (id ∷ pending)

-- The `while` loop on fuel; `none` means that the fuel ran out.
pub search_loop : List MemoryRelation → String → ℕ → List String → List String → Option Bool
search_loop rs target fuel visited [] = some false
search_loop rs target zero visited (id ∷ pending) = none
search_loop rs target (suc fuel) visited (id ∷ pending) =
    let skip = search_loop rs target fuel visited pending in
    let expand = search_loop rs target fuel (id ∷ visited) (push_all (outgoing rs id) pending) in
    if id == target then some true else if contains id visited then skip else expand

-- Every relation is pushed at most once, and the original memory once.
unfoldable pub would_create_supersession_cycle : List MemoryRelation → String → String → Option Bool
unfolding search_loop outgoing push_all
would_create_supersession_cycle rs replacement original =
    search_loop rs replacement (length rs + 1) [] (original ∷ [])

-- One relation leads from one memory to the other.
abbrev pub edge : List MemoryRelation → String → String → Bool
edge rs a b = any (λ r. r.from_memory_id == a && r.to_memory_id == b) rs

-- The memories that a chain of relations leads to.
pub data Reach (rs : List MemoryRelation) (a : String) : String → Type 0 where
  here : Reach rs a a
  step : {b c : String} → Reach rs a b → edge rs b c ≡ true → Reach rs a c

-- No memory replaces, by a chain of relations, one that leads back to it.
abbrev pub IsAcyclic : List MemoryRelation → Type 0
IsAcyclic rs = (a b : String) → edge rs a b ≡ true → ¬ Reach rs b a
