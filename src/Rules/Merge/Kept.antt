-- ===== src/Rules/Merge/Kept.antt =====
-- rules/merge.ts, `mergeRules`: where both devices changed a rule, neither edit is lost.
use code_butler.Prelude.{
  String, true, Option, none, some, List, [], ◌∷◌, ◌++◌, all, In, All-In, all-contains, contains,
  ◌==◌, eq_iff, eq_refl, ◌⊎◌, arith, ◌≡◌, ◌≢◌, refl, sym, ap, ◌∙◌, Bool-cases, inl, inr, any-append,
  lookup, lookup-sort,
}
use code_butler.Prelude.Assoc.{get}
use code_butler.Prelude.KeyedMap.{values}
use code_butler.Rules.Merge.{
  RuleVariant, RuleState, RulesState, RulesHost, variants_of, add_states, combine, state_hash,
  merge_state, unless_deleted, merge_rules, sorted_set,
}
use code_butler.Rules.Merge.Combine.{
  hash_of, has, gather, variant, contains-append, Distinct-add_states, lookup-add_states,
}
use code_butler.Rules.Merge.Texts.{contains-sorted_set}
use code_butler.Rules.Merge.Symmetric.{
  RulesLaws, SoundOption, SoundRules, Sound-variants_of, contains-gather, get-merge_rules,
  combine_comm,
}

-- The state has the variant's hash, with its bytes and at least its devices.
abbrev pub Keeps : RuleVariant → RuleState → Type 0
Keeps v state =
    (w : RuleVariant) × (lookup hash_of v.hash state ≡ some w)
    × (w.bytes ≡ v.bytes)
    × (all (λ device. contains device w.devices) v.devices ≡ true)

has-In : (v : RuleVariant) (vs : List RuleVariant) → In v vs → has v.hash vs ≡ true
has-In v [] m = absurd m
has-In v (w ∷ ws) (inl e) = rw e (ground (arith, eq_refl v.hash))
has-In v (w ∷ ws) (inr m) = ground (arith, has-In v ws m)

gather-In :
    (v : RuleVariant) (vs : List RuleVariant) (device : String)
    → In v vs
    → contains device v.devices ≡ true
    → contains device (gather v.hash vs) ≡ true
gather-In v [] device m c = absurd m
gather-In v (w ∷ ws) device (inl e) c =
    rw (e, eq_refl v.hash) (ground (arith, c, contains-append device v.devices (gather v.hash ws)))
gather-In v (w ∷ ws) device (inr m) c = elim (Bool-cases (w.hash == v.hash)) [
  | inl q ↦
      let rest = gather-In v ws device m c in
      rw q (ground (arith, rest, contains-append device w.devices (gather v.hash ws)))
  | inr q ↦ rw q (gather-In v ws device m c)
]

-- A state with another hash than the deletion's is published.
unless_deleted-kept :
    (h : RulesHost) (k : String) (w : RuleVariant) (state : RuleState)
    → k ≢ "deleted"
    → lookup hash_of k state ≡ some w
    → unless_deleted h (some state) ≡ some state
unless_deleted-kept h k w [] n e = refl
unless_deleted-kept h k w (v ∷ []) n e = ground (arith, e, eq_iff v.hash k, eq_iff v.hash "deleted")
unless_deleted-kept h k w (v ∷ u ∷ vs) n e = refl

module _ {h : RulesHost} (laws : RulesLaws h) (content : String → Option String)
    (no_bytes : content "deleted" ≡ none) where
  combine-Keeps :
      (l r : Option RuleState)
      → SoundOption content l
      → SoundOption content r
      → (v : RuleVariant) → In v (variants_of l)
      → Keeps v (combine h (l ∷ r ∷ []))
  unfolding combine
  combine-Keeps l r sl sr v m =
      let ll = Sound-variants_of laws content no_bytes l sl in
      let rr = Sound-variants_of laws content no_bytes r sr in
      let both = variants_of l ++ (variants_of r ++ []) in
      let present : has v.hash both ≡ true = ground (
        arith,
        has-In v (variants_of l) m,
        any-append (λ w. w.hash == v.hash) (variants_of l) (variants_of r ++ []),
      ) in
      (
        variant content v.hash (gather v.hash both),
        lookup-sort hash_of laws.collation v.hash (values (add_states [] (l ∷ r ∷ [])))
              (Distinct-add_states content (l ∷ r ∷ []))
            ∙ lookup-add_states content (l ∷ r ∷ []) v.hash (ll, (rr, tt))
            ∙ rw present refl,
        sym (All-In (λ w. w.bytes ≡ content w.hash) (variants_of l) v ll m),
        all-contains v.devices (sorted_set (gather v.hash both)) λ device c.
            contains-sorted_set device (gather v.hash both)
            ∙ contains-gather device v.hash (variants_of l) (variants_of r)
            ∙ ground (arith, gather-In v (variants_of l) device m c),
      )

  combine-Keeps_right :
      (l r : Option RuleState)
      → SoundOption content l
      → SoundOption content r
      → (v : RuleVariant) → In v (variants_of r)
      → Keeps v (combine h (l ∷ r ∷ []))
  combine-Keeps_right l r sl sr v m =
      rw (combine_comm laws content no_bytes l r sl sr) (combine-Keeps r l sr sl v m)

  -- If the local state of a rule has a variant that is not a deletion, and the hashes of its states
  -- in the base, here and there all differ, then the merged rule has every variant of both devices,
  -- with its bytes and at least its devices; a device without the rule counts as having the variant
  -- `deleted`. The hash of a variant tells its bytes, no state is empty, the hash of a list of
  -- hashes tells it from every other list, and `localeCompare` is a strict total order.
  pub merge_rules-Keeps :
      (base local remote : RulesState) (id : String) (edit : RuleVariant)
      → SoundRules content local
      → SoundRules content remote
      → In edit (variants_of (get local id))
      → edit.hash ≢ "deleted"
      → state_hash h (get local id) ≢ state_hash h (get remote id)
      → state_hash h (get local id) ≢ state_hash h (get base id)
      → state_hash h (get remote id) ≢ state_hash h (get base id)
      → (v : RuleVariant) → In v (variants_of (get local id)) ⊎ In v (variants_of (get remote id))
      → (state : RuleState) × (get (merge_rules h base local remote) id ≡ some state)
        × Keeps v state
  unfolding merge_state
  merge_rules-Keeps base local remote id edit sl sr m n lr lb rb v o =
      let l = get local id in
      let r = get remote id in
      let (w, found, _, _) = combine-Keeps l r (sl id) (sr id) edit m in
      let both_changed : merge_state h (get base id) l r ≡ some (combine h (l ∷ r ∷ [])) = ground (
        arith,
        eq_iff (state_hash h l) (state_hash h r),
        eq_iff (state_hash h l) (state_hash h (get base id)),
        eq_iff (state_hash h r) (state_hash h (get base id)),
      ) in
      (
        combine h (l ∷ r ∷ []),
        get-merge_rules laws content no_bytes base local remote id
            ∙ ap (unless_deleted h) both_changed
            ∙ unless_deleted-kept h edit.hash w (combine h (l ∷ r ∷ [])) n found,
        elim o [
          | inl x ↦ combine-Keeps l r (sl id) (sr id) v x
          | inr x ↦ combine-Keeps_right l r (sl id) (sr id) v x
        ],
      )
