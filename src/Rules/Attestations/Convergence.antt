-- ===== src/Rules/Attestations/Convergence.antt =====
-- rules/attestation-ledger.ts, `mergeAttestations`: the merged results do not depend on the order
-- of the states.
use code_butler.Prelude.{
  ℕ, Option, none, some, String, List, [], ◌∷◌, All, arith, ◌≡◌, refl, sym, ap, ap₂, ◌∙◌, ◌==◌,
  Bool-cases, inl, inr, sort_eq, map_option, keep_if, Option-cases,
}
use code_butler.Prelude.Assoc.{get}
use mathlib.Core.List.{Permᴰ}
use code_butler.Rules.Attestations.{
  Host, AttestationEntry, AttestationState, entry_id, canonical_entry, is_kept, newer, entries_of,
  merged_entries, merged_rule, merge_attestations,
}
use code_butler.Rules.Attestations.Winner.{HostLaws, IsCanonical, newer_comm}
use code_butler.Rules.Attestations.Outcome.{get-merge}
use code_butler.Rules.Attestations.Entries.{
  latest, latest_assoc, top, tops, unsorted, Distinct-unsorted, lookup-unsorted,
}

-- Every entry of the state is canonical.
abbrev pub AllCanonical : AttestationState → Type 0
AllCanonical [] = Unit
AllCanonical ((id, es) ∷ state) = All IsCanonical es × AllCanonical state

abbrev CanonicalOption : Option AttestationEntry → Type 0
CanonicalOption none = Unit
CanonicalOption (some e) = IsCanonical e

module _ (h : Host) where
  latest-Canonical :
      (a b : Option AttestationEntry)
      → CanonicalOption a
      → CanonicalOption b
      → CanonicalOption (latest h a b)
  unfolding newer
  latest-Canonical none b p q = q
  latest-Canonical (some a) none p q = p
  latest-Canonical (some a) (some b) p q = ground (arith, p, q)

  top-Canonical :
      (k : String) (es : List AttestationEntry) → All IsCanonical es → CanonicalOption (top h k es)
  top-Canonical k [] c = tt
  top-Canonical k (e ∷ es) (c, cs) =
      let rest = top-Canonical k es cs in
      elim (Bool-cases (entry_id e == k)) [
        | inl q ↦ rw q (latest-Canonical (some e) (top h k es) c rest)
        | inr q ↦ rw q rest
      ]

  get-Canonical :
      (state : AttestationState) (id : String) (es : List AttestationEntry)
      → AllCanonical state
      → get state id ≡ some es
      → All IsCanonical es
  unfolding get
  get-Canonical [] id es c g = cc
  get-Canonical ((j, fs) ∷ state) id es (c, cs) g = elim (Bool-cases (j == id)) [
    | inl q ↦ let here : fs ≡ es = ground (arith, q, g) in rw (← here) c
    | inr q ↦ get-Canonical state id es cs (ground (arith, q, g))
  ]

  entries_of-Canonical :
      (state : AttestationState) (id : String)
      → AllCanonical state
      → All IsCanonical (entries_of h state id)
  entries_of-Canonical state id c = elim (Option-cases (get state id)) [
    | inl g ↦ rw (entries_of, g) tt
    | inr (es, g) ↦ rw (entries_of, g) (get-Canonical state id es c g)
  ]

  tops-Canonical :
      (id k : String) (states : List AttestationState)
      → All AllCanonical states
      → CanonicalOption (tops h id k states)
  tops-Canonical id k [] c = tt
  tops-Canonical id k (state ∷ states) (c, cs) =
      latest-Canonical (top h k (entries_of h state id)) (tops h id k states)
        (top-Canonical k (entries_of h state id) (entries_of-Canonical state id c))
        (tops-Canonical id k states cs)

  All-Perm :
      {ss ts : List AttestationState} → Permᴰ ss ts → All AllCanonical ss → All AllCanonical ts
  All-Perm Permᴰ.nil c = tt
  All-Perm (Permᴰ.cons e p) (c, cs) = (rw (← e) c, All-Perm p cs)
  All-Perm (Permᴰ.swap e f) (c, (d, cs)) = (rw (← f) d, (rw (← e) c, cs))
  All-Perm (Permᴰ.trans p q) c = All-Perm q (All-Perm p c)

module _ {h : Host} (laws : HostLaws h) where
  latest_comm :
      (a b : Option AttestationEntry)
      → CanonicalOption a
      → CanonicalOption b
      → latest h a b ≡ latest h b a
  latest_comm none none p q = refl
  latest_comm none (some b) p q = refl
  latest_comm (some a) none p q = refl
  latest_comm (some a) (some b) p q = ap some (newer_comm laws a b p q)

  tops_perm :
      {ss ts : List AttestationState} (id k : String)
      → Permᴰ ss ts
      → All AllCanonical ss
      → tops h id k ss ≡ tops h id k ts
  tops_perm id k Permᴰ.nil c = refl
  tops_perm id k (Permᴰ.cons {l₁} {l₂} e p) (_, cs) =
      ap₂ (λ s o. latest h (top h k (entries_of h s id)) o) e (tops_perm id k p cs)
  tops_perm id k (Permᴰ.swap {a} {b} {l} e f) (c, (d, _)) =
      let at_a = top h k (entries_of h a id) in
      let at_b = top h k (entries_of h b id) in
      let ca = top-Canonical h k (entries_of h a id) (entries_of-Canonical h a id c) in
      let cb = top-Canonical h k (entries_of h b id) (entries_of-Canonical h b id d) in
      rw (← e, ← f)
        (latest_assoc h at_a at_b (tops h id k l)
          ∙ ap (λ o. latest h o (tops h id k l)) (latest_comm at_a at_b ca cb)
          ∙ sym (latest_assoc h at_b at_a (tops h id k l)))
  tops_perm id k (Permᴰ.trans p q) c = tops_perm id k p c ∙ tops_perm id k q (All-Perm h p c)

  merged_entries_perm :
      {ss ts : List AttestationState} (now : ℕ) (id : String)
      → Permᴰ ss ts
      → All AllCanonical ss
      → merged_entries h now ss id ≡ merged_entries h now ts id
  unfolding merged_entries
  merged_entries_perm {ss} {ts} now id p c =
      sort_eq entry_id laws.collation (unsorted h now ss id) (unsorted h now ts id)
        (Distinct-unsorted h now ss id) (Distinct-unsorted h now ts id)
        λ k.
          lookup-unsorted h now ss id k
          ∙ ap (λ o. map_option canonical_entry (keep_if (is_kept h now) o)) (tops_perm id k p c)
          ∙ sym (lookup-unsorted h now ts id k)

  -- `mergeAttestations` gives every rule the same results, in the same order, for the same states in
  -- any order, if their entries are canonical, the hash of a canonical entry tells it from every
  -- other, and `localeCompare` is a strict total order.
  pub merge_attestations_order_free :
      {ss ts : List AttestationState} (live : Option (List String)) (now : ℕ)
      → Permᴰ ss ts
      → All AllCanonical ss
      → (id : String)
      → get (merge_attestations h ss live now) id ≡ get (merge_attestations h ts live now) id
  merge_attestations_order_free {ss} {ts} live now p c id =
      get-merge h ss live now id
      ∙ rw (merged_rule, merged_entries_perm now id p c) refl
      ∙ sym (get-merge h ts live now id)
