-- ===== src/Memory/Supersession/Acyclic.antt =====
-- How the chains of relations change when a relation is added or taken away.
use code_butler.Prelude.{
  Option, some, all, [], ◌∷◌, String, Bool, true, false, List, ◌==◌, ◌≡◌, ◌||◌, ◌&&◌, ◌⊎◌, inl, inr,
  arith, eq_iff, Bool-cases,
}
use code_butler.Storage.{MemoryRelation}
use code_butler.Memory.Supersession.Search.{search_correct}
use code_butler.Memory.Supersession.{
  would_create_supersession_cycle, edge, Reach, here, step, IsAcyclic,
}

pub Reach-trans :
    {rs : List MemoryRelation} {a b c : String} → Reach rs a b → Reach rs b c → Reach rs a c
Reach-trans p here = p
Reach-trans p (step q e) = step (Reach-trans p q) e

abbrev pub Fewer : List MemoryRelation → List MemoryRelation → Type 0
Fewer rs qs = (a b : String) → edge rs a b ≡ true → edge qs a b ≡ true

pub Reach-fewer :
    (rs qs : List MemoryRelation) {a b : String} → Fewer rs qs → Reach rs a b → Reach qs a b
Reach-fewer rs qs f here = here
Reach-fewer rs qs f (step {b} {c} r e) = step (Reach-fewer rs qs f r) (f b c e)

-- Fewer relations stay without a cycle.
pub Fewer-IsAcyclic : (rs qs : List MemoryRelation) → Fewer rs qs → IsAcyclic qs → IsAcyclic rs
Fewer-IsAcyclic rs qs f k a b e r = k a b (f a b e) (Reach-fewer rs qs f r)

module _ (rs qs : List MemoryRelation) (p o : String)
    (added : (a b : String) → edge qs a b ≡ (edge rs a b || (p == a && o == b))) where
  -- A chain that uses the new relation passes through both of its ends.
  split_chain : {a b : String} → Reach qs a b → Reach rs a b ⊎ (Reach rs a p × Reach rs o b)
  split_chain here = inl here
  split_chain {a} (step {b} {c} r e) = go (split_chain r) (Bool-cases (edge rs b c))
    where
      ends : edge rs b c ≡ false → (p ≡ b) × (o ≡ c)
      ends old = ground (arith, added b c, eq_iff p b, eq_iff o c)

      go :
          Reach rs a b ⊎ (Reach rs a p × Reach rs o b)
          → (edge rs b c ≡ true) ⊎ (edge rs b c ≡ false)
          → Reach rs a c ⊎ (Reach rs a p × Reach rs o c)
      go (inl q) (inl old) = inl (step q old)
      go (inr (q, t)) (inl old) = inr (q, step t old)
      go (inl q) (inr new) = inr (rw (ends new).0 q, rw (← (ends new).1) here)
      go (inr (q, t)) (inr new) = inr (q, rw (← (ends new).1) here)

  -- A relation that no chain leads back along keeps the graph without a cycle.
  pub added-IsAcyclic : IsAcyclic rs → ¬ Reach rs o p → IsAcyclic qs
  added-IsAcyclic k none_back a b e r = go (split_chain r) (Bool-cases (edge rs a b))
    where
      ends : edge rs a b ≡ false → (p ≡ a) × (o ≡ b)
      ends old = ground (arith, added a b, eq_iff p a, eq_iff o b)

      go :
          Reach rs b a ⊎ (Reach rs b p × Reach rs o a)
          → (edge rs a b ≡ true) ⊎ (edge rs a b ≡ false)
          → ⊥
      go (inl q) (inl old) = k a b old q
      go (inl q) (inr new) = none_back (rw (ends new).0 (rw (ends new).1 q))
      go (inr (q, t)) (inl old) = none_back (Reach-trans t (Reach-trans (step here old) q))
      go (inr (q, t)) (inr new) = none_back (rw (ends new).1 q)

no_cycle : Option Bool → Bool
no_cycle (some false) = true
no_cycle _ = false

-- The search, run from every relation.
unfoldable pub acyclic_check : List MemoryRelation → List MemoryRelation → Bool
unfolding no_cycle
acyclic_check rs qs =
    all (λ r. no_cycle (would_create_supersession_cycle rs r.from_memory_id r.to_memory_id)) qs

check_edge :
    (rs qs : List MemoryRelation) (a b : String)
    → acyclic_check rs qs ≡ true
    → edge qs a b ≡ true
    → would_create_supersession_cycle rs a b ≡ some false
unfolding acyclic_check
check_edge rs [] a b h e = cc
check_edge rs (r ∷ qs) a b h e =
    ground (arith, check_edge rs qs a b, eq_iff r.from_memory_id a, eq_iff r.to_memory_id b)

-- A run of the search decides that a list of relations has no cycle.
pub acyclic_check-IsAcyclic : (rs : List MemoryRelation) → acyclic_check rs rs ≡ true → IsAcyclic rs
acyclic_check-IsAcyclic rs h a b e r = cc (check_edge rs rs a b h e, (search_correct rs a b).1.1 r)
