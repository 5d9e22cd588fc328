-- ===== src/Memory/Supersession/Search.antt =====
-- The search answers with the reachability, and its fuel is enough.
use code_butler.Prelude.{
  ◌≢◌, ℕ, zero, suc, ◌+◌, ◌≤◌, String, Bool, true, false, Option, none, some, List, [], ◌∷◌, length,
  contains, ◌==◌, ◌≡◌, refl, ◌||◌, ◌↔◌, ◌⊎◌, inl, inr, if◌then◌else◌, arith, eq_iff, Bool-cases,
}
use code_butler.Storage.{MemoryRelation}
use code_butler.Memory.Supersession.{
  outgoing, push_all, search_loop, would_create_supersession_cycle, edge, Reach, here, step,
}

contains-outgoing :
    (rs : List MemoryRelation) (a b : String) → contains b (outgoing rs a) ≡ edge rs a b
unfolding outgoing
contains-outgoing [] a b = refl
contains-outgoing (r ∷ rs) a b =
    ground (arith, contains-outgoing rs a b, eq_iff r.from_memory_id a, eq_iff r.to_memory_id b)

contains-push_all :
    (b : String) (ids pending : List String)
    → contains b (push_all ids pending) ≡ (contains b ids || contains b pending)
unfolding push_all
contains-push_all b [] pending = refl
contains-push_all b (id ∷ ids) pending = ground (arith, contains-push_all b ids (id ∷ pending))

length-push_all :
    (ids pending : List String) → length (push_all ids pending) ≡ length ids + length pending
unfolding push_all
length-push_all [] pending = omega arith
length-push_all (id ∷ ids) pending = omega (arith, length-push_all ids (id ∷ pending))

-- The relations whose source has not been visited.
unvisited : List MemoryRelation → List String → ℕ
unvisited [] visited = 0
unvisited (r ∷ rs) visited =
    let rest = unvisited rs visited in if contains r.from_memory_id visited then rest else suc rest

unvisited-le : (rs : List MemoryRelation) (visited : List String) → unvisited rs visited ≤ length rs
unfolding unvisited
unvisited-le [] visited = omega arith
unvisited-le (r ∷ rs) visited = ground (arith, unvisited-le rs visited)

-- A visit takes the outgoing relations away from those that are left.
unvisited-visit :
    (rs : List MemoryRelation) (visited : List String) (id : String)
    → contains id visited ≡ false
    → unvisited rs (id ∷ visited) + length (outgoing rs id) ≡ unvisited rs visited
unfolding unvisited outgoing
unvisited-visit [] visited id h = omega arith
unvisited-visit (r ∷ rs) visited id h =
    ground (
      arith,
      unvisited-visit rs visited id h,
      eq_iff id r.from_memory_id,
      eq_iff r.from_memory_id id,
    )

-- The loop ends: each round takes one memory off the stack, and a visit pushes relations once.
loop_total :
    (rs : List MemoryRelation) (target : String) (fuel : ℕ) (visited pending : List String)
    → length pending + unvisited rs visited ≤ fuel
    → search_loop rs target fuel visited pending ≢ none
unfolding search_loop
loop_total rs target zero visited [] h = cc
loop_total rs target (suc fuel) visited [] h = cc
loop_total rs target zero visited (id ∷ pending) h = absurd (omega arith)
loop_total rs target (suc fuel) visited (id ∷ pending) h = elim (Bool-cases (contains id visited)) [
  | inl old ↦ ground (arith, loop_total rs target fuel visited pending)
  | inr new ↦ ground (
    arith,
    unvisited-visit rs visited id new,
    length-push_all (outgoing rs id) pending,
    loop_total rs target fuel (id ∷ visited) (push_all (outgoing rs id) pending),
  )
]

-- The search is done, and its answer is yes or no.
pub search_total :
    (rs : List MemoryRelation) (p o : String) → would_create_supersession_cycle rs p o ≢ none
unfolding would_create_supersession_cycle
search_total rs p o =
    loop_total rs p (length rs + 1) [] (o ∷ []) (omega (arith, unvisited-le rs []))

contains_head : (a : String) (xs : List String) → contains a (a ∷ xs) ≡ true
contains_head a xs = ground (arith, eq_iff a a)

Reach-edge_first :
    (rs : List MemoryRelation) (a b : String) {c : String}
    → edge rs a b ≡ true
    → Reach rs b c
    → Reach rs a c
Reach-edge_first rs a b e here = step here e
Reach-edge_first rs a b e (step r f) = step (Reach-edge_first rs a b e r) f

-- A yes is right: the target can be reached from the stack.
loop_sound :
    (rs : List MemoryRelation) (target : String) (fuel : ℕ) (visited pending : List String)
    → search_loop rs target fuel visited pending ≡ some true
    → (x : String) × (contains x pending ≡ true) × Reach rs x target
unfolding search_loop
loop_sound rs target zero visited [] h = cc
loop_sound rs target (suc fuel) visited [] h = cc
loop_sound rs target zero visited (id ∷ pending) h = cc
loop_sound rs target (suc fuel) visited (id ∷ pending) h = elim (Bool-cases (id == target)) [
  | inl same ↦ (id, contains_head id pending, rw (← (eq_iff id target).0 same) here)
  | inr other ↦ elim (Bool-cases (contains id visited)) [
    | inl old ↦
        let (x, m, r) = loop_sound rs target fuel visited pending (ground arith) in
        (x, ground arith, r)
    | inr new ↦
        let (x, m, r) =
          loop_sound rs target fuel (id ∷ visited) (push_all (outgoing rs id) pending)
            (ground arith) in
        from_pushed x r (Bool-cases (edge rs id x)) m
  ]
]
  where
    from_pushed :
        (x : String)
        → Reach rs x target
        → (edge rs id x ≡ true) ⊎ (edge rs id x ≡ false)
        → contains x (push_all (outgoing rs id) pending) ≡ true
        → (y : String) × (contains y (id ∷ pending) ≡ true) × Reach rs y target
    from_pushed x r (inl e) m = (id, contains_head id pending, Reach-edge_first rs id x e r)
    from_pushed x r (inr e) m = (
      x,
      ground (arith, contains-push_all x (outgoing rs id) pending, contains-outgoing rs id x),
      r,
    )

-- What has been visited leads only to what has been visited or waits on the stack.
IsClosed : List MemoryRelation → List String → List String → Type 0
IsClosed rs visited pending =
    (a b : String)
    → contains a visited ≡ true
    → edge rs a b ≡ true
    → (contains b visited || contains b pending) ≡ true

Reach-visited :
    (rs : List MemoryRelation) (visited : List String) (x y : String)
    → IsClosed rs visited []
    → contains x visited ≡ true
    → Reach rs x y
    → contains y visited ≡ true
unfolding IsClosed
Reach-visited rs visited x y k h here = h
Reach-visited rs visited x y k h (step {b = b} r e) =
    ground (arith, k b y (Reach-visited rs visited x b k h r) e)

visit-IsClosed :
    (rs : List MemoryRelation) (visited pending : List String) (id : String)
    → IsClosed rs visited (id ∷ pending)
    → IsClosed rs (id ∷ visited) (push_all (outgoing rs id) pending)
unfolding IsClosed
visit-IsClosed rs visited pending id k a b m e = ground (
  arith,
  eq_iff id a,
  eq_iff id b,
  contains-push_all b (outgoing rs id) pending,
  contains-outgoing rs id b,
  k a b,
)

skip-IsClosed :
    (rs : List MemoryRelation) (visited pending : List String) (id : String)
    → contains id visited ≡ true
    → IsClosed rs visited (id ∷ pending)
    → IsClosed rs visited pending
unfolding IsClosed
skip-IsClosed rs visited pending id old k a b m e = ground (arith, eq_iff id b, k a b m e)

-- A no is right: nothing on the stack leads to the target.
loop_complete :
    (rs : List MemoryRelation) (target : String) (fuel : ℕ) (visited pending : List String)
    → IsClosed rs visited pending
    → contains target visited ≡ false
    → search_loop rs target fuel visited pending ≡ some false
    → (x : String) → (contains x visited || contains x pending) ≡ true
    → ¬ Reach rs x target
unfolding search_loop
loop_complete rs target zero visited [] k miss h x m r =
    cc (Reach-visited rs visited x target k (ground arith) r)
loop_complete rs target (suc fuel) visited [] k miss h x m r =
    cc (Reach-visited rs visited x target k (ground arith) r)
loop_complete rs target zero visited (id ∷ pending) k miss h x m r = cc
loop_complete rs target (suc fuel) visited (id ∷ pending) k miss h x m r =
    elim (Bool-cases (contains id visited)) [
      | inl old ↦
          loop_complete rs target fuel visited pending (skip-IsClosed rs visited pending id old k)
            miss (ground arith) x (ground (arith, eq_iff id x)) r
      | inr new ↦
          loop_complete rs target fuel (id ∷ visited) (push_all (outgoing rs id) pending)
            (visit-IsClosed rs visited pending id k) (ground arith) (ground arith) x
            (ground (arith, contains-push_all x (outgoing rs id) pending)) r
    ]

start-IsClosed : (rs : List MemoryRelation) (o : String) → IsClosed rs [] (o ∷ [])
unfolding IsClosed
start-IsClosed rs o a b m e = cc

-- The search always answers, and it answers yes exactly when a chain of relations leads from the
-- original memory to its replacement.
pub search_correct :
    (rs : List MemoryRelation) (replacement original : String)
    → (would_create_supersession_cycle rs replacement original ≢ none)
      × ((would_create_supersession_cycle rs replacement original ≡ some true)
          ↔ Reach rs original replacement)
unfolding would_create_supersession_cycle
search_correct rs p o = (search_total rs p o, (found, reached))
  where
    found : would_create_supersession_cycle rs p o ≡ some true → Reach rs o p
    found h =
        let (x, m, r) = loop_sound rs p (length rs + 1) [] (o ∷ []) h in
        rw ((eq_iff o x).0 (ground arith)) r

    missed : would_create_supersession_cycle rs p o ≡ some false → ¬ Reach rs o p
    missed h =
        loop_complete rs p (length rs + 1) [] (o ∷ []) (start-IsClosed rs o) refl h o
          (contains_head o [])

    reached : Reach rs o p → would_create_supersession_cycle rs p o ≡ some true
    reached r = go (would_create_supersession_cycle rs p o) refl
      where
        go :
            (answer : Option Bool)
            → would_create_supersession_cycle rs p o ≡ answer
            → would_create_supersession_cycle rs p o ≡ some true
        go none e = absurd (search_total rs p o e)
        go (some true) e = e
        go (some false) e = absurd (missed e r)
