-- ===== src/Rules/Merge/Symmetric.antt =====
-- rules/merge.ts, `mergeRules`: the merge does not depend on which device is the local one.
use Prim.Native.String.{compare}
use code_butler.Prelude.{
  String, false, ◌||◌, Option, none, some, List, [], ◌∷◌, ◌++◌, contains, sort_by, Collation, ◌==◌,
  eq_iff, eq_refl, if◌then◌else◌, arith, ◌≡◌, ◌≢◌, refl, sym, ap, ap₂, ◌∙◌, insert_by, any-append,
  sort_eq,
}
use code_butler.Prelude.Assoc.{get, keys}
use code_butler.Prelude.Collect.{get_absent, get-set_each_set}
use code_butler.Prelude.KeyedMap.{values}
use code_butler.Rules.Merge.{
  RuleVariant, RuleState, RulesState, RulesHost, variants_of, add_states, combine, hashes,
  state_hash, combine_if, merge_state, unless_deleted, merged_rule, merge_rules,
}
use code_butler.Rules.Merge.Combine.{
  hash_of, has, gather, Sound, variant_eq, merged_at, gather-append, contains-append,
  Distinct-add_states, lookup-add_states,
}

-- What the merge relies on: the hash of a list of hashes tells it from every other list.
pub record RulesLaws (h : RulesHost) : Type 0 where
  pub injective : (xs ys : List String) → h.digest xs ≡ h.digest ys → xs ≡ ys
  pub collation : Collation h.locale_compare

-- A rule's state, if it has one, has a variant, and the hashes of its variants tell their bytes.
abbrev pub SoundOption : (String → Option String) → Option RuleState → Type 0
SoundOption content none = Unit
SoundOption content (some state) = Sound content state × (state ≢ [])

abbrev pub SoundRules : (String → Option String) → RulesState → Type 0
SoundRules content state = (id : String) → SoundOption content (get state id)

pub contains-gather :
    (a k : String) (us vs : List RuleVariant)
    → contains a (gather k (us ++ (vs ++ [])))
      ≡ (contains a (gather k us) || contains a (gather k vs))
contains-gather a k us vs =
    rw (gather-append k us (vs ++ []), gather-append k vs [])
      (ground (
        arith,
        contains-append a (gather k us) (gather k vs ++ []),
        contains-append a (gather k vs) [],
      ))

insert_by-some : (x : String) (xs : List String) → insert_by compare x xs ≢ []
insert_by-some x [] e = cc
insert_by-some x (y ∷ ys) e = ground (arith, e)

-- A state with a variant does not hash like one without.
state_hash-some :
    {h : RulesHost} (laws : RulesLaws h) (state : RuleState)
    → state ≢ []
    → state_hash h (some state) ≢ state_hash h none
unfolding state_hash
state_hash-some laws [] n e = n refl
state_hash-some {h} laws (v ∷ vs) n e =
    insert_by-some v.hash (sort_by compare (hashes h vs)) (laws.injective _ _ e)

module _ {h : RulesHost} (laws : RulesLaws h) (content : String → Option String)
    (no_bytes : content "deleted" ≡ none) where
  pub Sound-variants_of :
      (o : Option RuleState) → SoundOption content o → Sound content (variants_of o)
  Sound-variants_of none s = (sym no_bytes, tt)
  Sound-variants_of (some state) (s, _) = s

  listed_swap :
      (k : String) (us vs : List RuleVariant)
      → merged_at content k none (us ++ (vs ++ [])) ≡ merged_at content k none (vs ++ (us ++ []))
  listed_swap k us vs =
      let same_has : has k (us ++ (vs ++ [])) ≡ has k (vs ++ (us ++ [])) = ground (
        arith,
        any-append (λ v. v.hash == k) us (vs ++ []),
        any-append (λ v. v.hash == k) vs (us ++ []),
        any-append (λ v. v.hash == k) us [],
        any-append (λ v. v.hash == k) vs [],
      ) in
      let same_variant =
        variant_eq content k (gather k (us ++ (vs ++ []))) (gather k (vs ++ (us ++ [])))
          λ a. contains-gather a k us vs ∙ ground arith ∙ sym (contains-gather a k vs us) in
      ap₂ (λ b v. if b then some v else none) same_has same_variant

  pub combine_comm :
      (l r : Option RuleState)
      → SoundOption content l
      → SoundOption content r
      → combine h (l ∷ r ∷ []) ≡ combine h (r ∷ l ∷ [])
  unfolding combine
  combine_comm l r sl sr =
      let ll = Sound-variants_of l sl in
      let rr = Sound-variants_of r sr in
      sort_eq hash_of laws.collation (values (add_states [] (l ∷ r ∷ [])))
        (values (add_states [] (r ∷ l ∷ []))) (Distinct-add_states content (l ∷ r ∷ []))
        (Distinct-add_states content (r ∷ l ∷ []))
        λ k.
          lookup-add_states content (l ∷ r ∷ []) k (ll, (rr, tt))
          ∙ listed_swap k (variants_of l) (variants_of r)
          ∙ sym (lookup-add_states content (r ∷ l ∷ []) k (rr, (ll, tt)))

  combine_if_comm :
      (l r : Option RuleState)
      → SoundOption content l
      → SoundOption content r
      → state_hash h l ≡ state_hash h r
      → combine_if h l r ≡ combine_if h r l
  combine_if_comm none none sl sr e = refl
  combine_if_comm none (some r) sl (_, n) e = absurd (state_hash-some laws r n (sym e))
  combine_if_comm (some l) none (_, n) sr e = absurd (state_hash-some laws l n e)
  combine_if_comm (some l) (some r) sl sr e = ap some (combine_comm (some l) (some r) sl sr)

  merge_state_comm :
      (b l r : Option RuleState)
      → SoundOption content l
      → SoundOption content r
      → merge_state h b l r ≡ merge_state h b r l
  unfolding merge_state
  merge_state_comm b l r sl sr = ground (
    arith,
    combine_comm l r sl sr,
    combine_if_comm l r sl sr,
    eq_iff (state_hash h l) (state_hash h r),
    eq_iff (state_hash h r) (state_hash h l),
    eq_iff (state_hash h l) (state_hash h b),
    eq_iff (state_hash h r) (state_hash h b),
  )

  -- Nothing is merged under a rule that no device has.
  merged_rule_absent :
      (base local remote : RulesState) (id : String)
      → contains id (keys base ++ (keys local ++ keys remote)) ≡ false
      → merged_rule h base local remote id ≡ none
  unfolding merge_state
  merged_rule_absent base local remote id e =
      let split = any-append (λ x. x == id) (keys base) (keys local ++ keys remote) in
      let split_rest = any-append (λ x. x == id) (keys local) (keys remote) in
      let no_local = get_absent local id (ground (arith, e, split, split_rest)) in
      let no_remote = get_absent remote id (ground (arith, e, split, split_rest)) in
      rw (merged_rule, no_local, no_remote, eq_refl (state_hash h none)) refl

  pub get-merge_rules :
      (base local remote : RulesState) (id : String)
      → get (merge_rules h base local remote) id ≡ merged_rule h base local remote id
  unfolding merge_rules
  get-merge_rules base local remote id =
      get-set_each_set (merged_rule h base local remote) (keys base ++ (keys local ++ keys remote))
        id (merged_rule_absent base local remote id)

  -- `mergeRules` gives every rule the same state, its variants in the same order and each with the
  -- same bytes and devices, whichever of the two devices is the local one, if the hash of a variant
  -- tells its bytes, no state is empty, the hash of a list of hashes tells it from every other list,
  -- and `localeCompare` is a strict total order.
  pub merge_rules_comm :
      (base local remote : RulesState)
      → SoundRules content local
      → SoundRules content remote
      → (id : String)
      → get (merge_rules h base local remote) id ≡ get (merge_rules h base remote local) id
  merge_rules_comm base local remote sl sr id =
      get-merge_rules base local remote id
      ∙ ap (unless_deleted h)
          (merge_state_comm (get base id) (get local id) (get remote id) (sl id) (sr id))
      ∙ sym (get-merge_rules base remote local id)
