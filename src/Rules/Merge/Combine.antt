-- ===== src/Rules/Merge/Combine.antt =====
-- rules/merge.ts, `combine`: the variant that each hash has among the combined states.
use code_butler.Prelude.{
  String, Bool, false, ◌||◌, Option, none, some, List, [], ◌∷◌, ◌++◌, any, All, contains, ◌==◌,
  eq_iff, if◌then◌else◌, arith, ◌≡◌, refl, ap, ◌∙◌, lookup, Distinct, Bool-cases, inl, inr,
  any-append,
}
use code_butler.Prelude.Assoc.{Assoc, get, get-put}
use code_butler.Prelude.KeyedMap.{values, Keyed, put-Keyed, lookup-values, Distinct-values}
use code_butler.Rules.Merge.{
  RuleVariant, RuleState, sorted_set, variants_of, devices_of, add_variant, add_variants,
  add_states,
}
use code_butler.Rules.Merge.Texts.{SameTexts, sorted_set_eq, contains-sorted_set}

abbrev pub hash_of : RuleVariant → String
hash_of v = v.hash

abbrev pub has : String → List RuleVariant → Bool
has k = any (λ v. v.hash == k)

-- The devices that are said to have a hash.
abbrev pub gather : String → List RuleVariant → List String
gather k [] = []
gather k (v ∷ vs) = if v.hash == k then v.devices ++ gather k vs else gather k vs

-- The variants of the states, one after the other.
abbrev pub listed : List (Option RuleState) → List RuleVariant
listed [] = []
listed (state ∷ states) = variants_of state ++ listed states

pub contains-append :
    (a : String) (xs ys : List String) → contains a (xs ++ ys) ≡ (contains a xs || contains a ys)
contains-append a xs ys = any-append (λ x. x == a) xs ys

pub gather_absent : (k : String) (vs : List RuleVariant) → has k vs ≡ false → gather k vs ≡ []
gather_absent k [] e = refl
gather_absent k (v ∷ vs) e = ground (arith, e, gather_absent k vs)

append_assoc : (xs ys zs : List String) → xs ++ (ys ++ zs) ≡ (xs ++ ys) ++ zs
append_assoc [] ys zs = refl
append_assoc (x ∷ xs) ys zs = ap (λ l. x ∷ l) (append_assoc xs ys zs)

pub gather-append :
    (k : String) (vs us : List RuleVariant) → gather k (vs ++ us) ≡ gather k vs ++ gather k us
gather-append k [] us = refl
gather-append k (v ∷ vs) us = elim (Bool-cases (v.hash == k)) [
  | inl q ↦ rw q (
      ap (λ l. v.devices ++ l) (gather-append k vs us)
      ∙ append_assoc v.devices (gather k vs) (gather k us))
  | inr q ↦ rw q (gather-append k vs us)
]

module _ (content : String → Option String) where
  -- The hash of a variant tells its bytes.
  abbrev pub Sound : List RuleVariant → Type 0
  Sound = All (λ v. v.bytes ≡ content v.hash)

  abbrev pub variant : String → List String → RuleVariant
  variant k devices = record { hash = k; bytes = content k; devices = sorted_set devices }

  abbrev pub merged_at : String → Option RuleVariant → List RuleVariant → Option RuleVariant
  merged_at k o vs = if has k vs then some (variant k (devices_of o ++ gather k vs)) else o

  get-add_variant :
      (w : Assoc RuleVariant) (v : RuleVariant) (k : String)
      → v.bytes ≡ content v.hash
      → get (add_variant w v) k
        ≡ (if v.hash == k then some (variant k (devices_of (get w k) ++ v.devices)) else get w k)
  unfolding add_variant
  get-add_variant w v k sound =
      let new = record v { devices = sorted_set (devices_of (get w v.hash) ++ v.devices) } in
      get-put w v.hash k new ∙ elim (Bool-cases (v.hash == k)) [
        | inl q ↦ rw (q, sound, (eq_iff v.hash k).0 q) refl
        | inr q ↦ rw q refl
      ]

  pub variant_eq :
      (k : String) (xs ys : List String) → SameTexts xs ys → variant k xs ≡ variant k ys
  variant_eq k xs ys same =
      ap (λ ds. record { hash = k; bytes = content k; devices = ds }) (sorted_set_eq xs ys same)

  contains_both :
      (a : String) (ds es gs : List String)
      → contains a (ds ++ (es ++ gs)) ≡ (contains a ds || (contains a es || contains a gs))
  contains_both a ds es gs = contains-append a ds (es ++ gs) ∙ rw (contains-append a es gs) refl

  -- Devices that were sorted in between are the same devices.
  merged_at-variant :
      (k : String) (ds es : List String) (vs : List RuleVariant)
      → merged_at k (some (variant k (ds ++ es))) vs ≡ some (variant k (ds ++ (es ++ gather k vs)))
  merged_at-variant k ds es vs = elim (Bool-cases (has k vs)) [
    | inl q ↦ rw q (
        ap some (
          variant_eq k _ _ λ a. ground (
            arith,
            contains-append a (sorted_set (ds ++ es)) (gather k vs),
            contains-sorted_set a (ds ++ es),
            contains-append a ds es,
            contains_both a ds es (gather k vs),
          )))
    | inr q ↦
        rw (q, gather_absent k vs q)
          (ap some (
            variant_eq k _ _
              λ a. ground (arith, contains-append a ds es, contains_both a ds es [])))
  ]

  get-add_variants :
      (w : Assoc RuleVariant) (vs : List RuleVariant) (k : String)
      → Sound vs
      → get (add_variants w vs) k ≡ merged_at k (get w k) vs
  unfolding add_variants
  get-add_variants w [] k s = refl
  get-add_variants w (v ∷ vs) k (s, ss) =
      get-add_variants (add_variant w v) vs k ss
      ∙ rw (get-add_variant w v k s) (elim (Bool-cases (v.hash == k)) [
        | inl q ↦ rw q (merged_at-variant k (devices_of (get w k)) v.devices vs)
        | inr q ↦ rw q refl
      ])

  merged_at-append :
      (k : String) (o : Option RuleVariant) (vs us : List RuleVariant)
      → merged_at k (merged_at k o vs) us ≡ merged_at k o (vs ++ us)
  merged_at-append k o vs us = elim (Bool-cases (has k vs)) [
    | inl q ↦
        rw (q, any-append (λ v. v.hash == k) vs us, gather-append k vs us)
          (rw q (merged_at-variant k (devices_of o) (gather k vs) us))
    | inr q ↦
        rw (q, any-append (λ v. v.hash == k) vs us, gather-append k vs us)
          (rw (q, gather_absent k vs q) refl)
  ]

  get-add_states :
      (w : Assoc RuleVariant) (states : List (Option RuleState)) (k : String)
      → All (λ s. Sound (variants_of s)) states
      → get (add_states w states) k ≡ merged_at k (get w k) (listed states)
  unfolding add_states
  get-add_states w [] k s = refl
  get-add_states w (state ∷ states) k (s, ss) =
      get-add_states (add_variants w (variants_of state)) states k ss
      ∙ rw (get-add_variants w (variants_of state) k s)
          (merged_at-append k (get w k) (variants_of state) (listed states))

  add_variants-Keyed :
      (w : Assoc RuleVariant) (vs : List RuleVariant)
      → Keyed hash_of w
      → Keyed hash_of (add_variants w vs)
  unfolding add_variants add_variant
  add_variants-Keyed w [] q = q
  add_variants-Keyed w (v ∷ vs) q =
      add_variants-Keyed (add_variant w v) vs (put-Keyed hash_of w v.hash _ refl q)

  add_states-Keyed :
      (w : Assoc RuleVariant) (states : List (Option RuleState))
      → Keyed hash_of w
      → Keyed hash_of (add_states w states)
  unfolding add_states
  add_states-Keyed w [] q = q
  add_states-Keyed w (state ∷ states) q =
      add_states-Keyed (add_variants w (variants_of state)) states
        (add_variants-Keyed w (variants_of state) q)

  pub Distinct-add_states :
      (states : List (Option RuleState)) → Distinct hash_of (values (add_states [] states))
  Distinct-add_states states =
      Distinct-values hash_of (add_states [] states) (add_states-Keyed [] states tt)

  pub lookup-add_states :
      (states : List (Option RuleState)) (k : String)
      → All (λ s. Sound (variants_of s)) states
      → lookup hash_of k (values (add_states [] states)) ≡ merged_at k none (listed states)
  unfolding get
  lookup-add_states states k s =
      lookup-values hash_of (add_states [] states) k (add_states-Keyed [] states tt)
      ∙ get-add_states [] states k s
