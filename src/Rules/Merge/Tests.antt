-- ===== src/Rules/Merge/Tests.antt =====
-- Two devices that changed a rule, and the theorems about the merge at these.
use Prim.Native.String.{compare}
use code_butler.Prelude.{
  String, false, Option, none, some, List, [], ◌∷◌, arith, ◌≡◌, ◌≢◌, refl, ap, ap₂, ◌==◌,
  Bool-cases, if◌then◌else◌, eq_iff, inl, inr, Collation-compare,
}
use code_butler.Prelude.Assoc.{get, put}
use code_butler.Prelude.Collect.{set_each}
use code_butler.Prelude.Pairing.{is_empty, pair_text, pair_text_injective}
use code_butler.Rules.Merge.{
  RuleVariant, RulesState, RulesHost, sorted_set, add_variant, add_variants, add_states, combine,
  state_hash, merge_state, merge_rules,
}
use code_butler.Rules.Merge.Symmetric.{RulesLaws, SoundOption, SoundRules, merge_rules_comm}
use code_butler.Rules.Merge.Kept.{Keeps, merge_rules-Keeps}

different : (s t : String) → (s == t) ≡ false → s ≢ t
different s t d e = ground (arith, d, eq_iff s t)

-- A hash of lists without collisions: each text is paired with the rest.
toy_digest : List String → String
toy_digest [] = ""
toy_digest (x ∷ xs) = pair_text "+" (pair_text x (toy_digest xs))

toy_digest_injective : (xs ys : List String) → toy_digest xs ≡ toy_digest ys → xs ≡ ys
unfolding toy_digest pair_text
toy_digest_injective [] [] e = refl
toy_digest_injective [] (y ∷ ys) e = absurd (ground (arith, ap is_empty e))
toy_digest_injective (x ∷ xs) [] e = absurd (ground (arith, ap is_empty e))
toy_digest_injective (x ∷ xs) (y ∷ ys) e =
    let (_, e1) =
      pair_text_injective "+" (pair_text x (toy_digest xs)) "+" (pair_text y (toy_digest ys)) e in
    let (head, tail) = pair_text_injective x (toy_digest xs) y (toy_digest ys) e1 in
    ap₂ ◌∷◌ head (toy_digest_injective xs ys tail)

toy_host : RulesHost
toy_host = record { digest = toy_digest; locale_compare = compare }

toy_laws : RulesLaws toy_host
unfolding toy_host
toy_laws = record { injective = toy_digest_injective; collation = Collation-compare }

-- The bytes of a variant are the text of its hash.
abbrev content : String → Option String
content k = if k == "deleted" then none else some k

abbrev written : String → String → RuleVariant
written text device = record { hash = text; bytes = some text; devices = device ∷ [] }

abbrev ancestor : RulesState
ancestor = ("style", written "a" "laptop" ∷ []) ∷ []

abbrev laptop : RulesState
laptop = ("style", written "b" "laptop" ∷ []) ∷ []

abbrev desktop : RulesState
desktop = ("style", written "c" "desktop" ∷ []) ∷ []

only_rule :
    (v : RuleVariant) → v.bytes ≡ content v.hash → SoundRules content (("style", v ∷ []) ∷ [])
unfolding get
only_rule v s id = elim (Bool-cases ("style" == id)) [
  | inl q ↦ rw (SoundOption, get, q) ((s, tt), λ e. cc)
  | inr q ↦ rw (SoundOption, get, q) tt
]

runs : Unit {0}
unfolding toy_host toy_digest pair_text sorted_set add_variant add_variants add_states combine
    state_hash merge_state merge_rules set_each get put
runs = tt

merge_rules_comm_example :
    get (merge_rules toy_host ancestor laptop desktop) "style"
    ≡ get (merge_rules toy_host ancestor desktop laptop) "style"
unfolding runs
merge_rules_comm_example =
    merge_rules_comm toy_laws content refl ancestor laptop desktop
      (only_rule (written "b" "laptop") refl) (only_rule (written "c" "desktop") refl) "style"

merge_rules-Keeps_example :
    (state : List RuleVariant) × (get (merge_rules toy_host ancestor laptop desktop) "style"
      ≡ some state)
    × Keeps (written "c" "desktop") state
unfolding runs
merge_rules-Keeps_example =
    merge_rules-Keeps toy_laws content refl ancestor laptop desktop "style" (written "b" "laptop")
      (only_rule (written "b" "laptop") refl) (only_rule (written "c" "desktop") refl) (inl refl)
      (different "b" "deleted" refl)
      (different (state_hash toy_host (get laptop "style"))
        (state_hash toy_host (get desktop "style")) refl)
      (different (state_hash toy_host (get laptop "style"))
        (state_hash toy_host (get ancestor "style")) refl)
      (different (state_hash toy_host (get desktop "style"))
        (state_hash toy_host (get ancestor "style")) refl)
      (written "c" "desktop") (inr (inl refl))
