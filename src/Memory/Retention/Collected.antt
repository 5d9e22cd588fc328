-- ===== src/Memory/Retention/Collected.antt =====
-- Whose memories the retention policy looks at.
use code_butler.Prelude.{
  String, Bool, true, false, not, List, [], ◌∷◌, ◌++◌, ◌≡◌, refl, inl, inr, filter, contains, arith,
  All, Bool-cases,
}
use code_butler.Memory.Retention.{
  Category, candidate, promoted, Layer, core, device, branch, StoredMemory, Item, to_item, items_of,
  layer_text, collect_items,
}

-- The layer of the item is not the core layer.
abbrev pub is_core : Layer → Bool
is_core core = true
is_core _ = false

module _ {ℓ κ ι} {A : Type ℓ} {P : A → Type κ} {Q : A → Type ι} (p : A → Bool)
    (keep : (a : A) → P a → p a ≡ true → Q a) where
  All-filter : (xs : List A) → All P xs → All Q (filter p xs)
  All-filter [] ps = tt
  All-filter (x ∷ xs) (h, ps) = elim (Bool-cases (p x)) [
    | inl e ↦ rw e (keep x h e, All-filter xs ps)
    | inr e ↦ rw e (All-filter xs ps)
  ]

All-append {ℓ κ} :
    {A : Type ℓ} (P : A → Type κ) (xs ys : List A) → All P xs → All P ys → All P (xs ++ ys)
All-append P [] ys ps qs = qs
All-append P (x ∷ xs) ys (h, ps) qs = (h, All-append P xs ys ps qs)

module _ (parse_layer : String → Layer) where
  NotCore : Item → Type 0
  NotCore i = is_core (parse_layer i.layer) ≡ false

  collected :
      (category : Category) (m : StoredMemory) (ms : List StoredMemory) (l : Layer)
      → parse_layer (layer_text m.layer) ≡ l
      → All NotCore (items_of parse_layer category ms)
      → All NotCore (items_of parse_layer category (m ∷ ms))
  unfolding to_item NotCore
  collected category m ms core e h = rw (e, items_of, to_item) h
  collected category m ms (device d) e h = rw (e, items_of, to_item) (ground arith, h)
  collected category m ms (branch b d) e h = rw (e, items_of, to_item) (ground arith, h)

  items_of-NotCore :
      (category : Category) (ms : List StoredMemory)
      → All NotCore (items_of parse_layer category ms)
  items_of-NotCore category [] = tt
  items_of-NotCore category (m ∷ ms) =
      collected category m ms (parse_layer (layer_text m.layer)) refl (items_of-NotCore category ms)

  -- Every memory that the policy decides on lies in a layer other than the core layer, and the
  -- layer is not one that another device owns.
  pub collect_items-own :
      (peers : List String) (candidates promoted_memories : List StoredMemory)
      → All
          (λ i. (is_core (parse_layer i.layer) ≡ false) × (contains i.layer peers ≡ false))
          (collect_items parse_layer peers candidates promoted_memories)
  unfolding collect_items NotCore
  collect_items-own peers candidates promoted_memories =
      All-filter (λ item. not (contains item.layer peers)) (λ i h e. (h, ground arith))
        (items_of parse_layer candidate candidates
          ++ items_of parse_layer promoted promoted_memories)
        (All-append NotCore (items_of parse_layer candidate candidates)
          (items_of parse_layer promoted promoted_memories) (items_of-NotCore candidate candidates)
          (items_of-NotCore promoted promoted_memories))
