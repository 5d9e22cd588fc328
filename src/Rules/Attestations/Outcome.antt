-- ===== src/Rules/Attestations/Outcome.antt =====
-- rules/attestation-ledger.ts, `mergeAttestations`: the results of one rule in the merged state.
use code_butler.Prelude.{
  ℕ, Option, none, false, String, List, [], ◌∷◌, arith, ◌≡◌, refl, ◌==◌, Bool-cases, inl, inr,
  contains, any-append,
}
use code_butler.Prelude.Assoc.{Assoc, get, keys}
use code_butler.Prelude.Collect.{get_absent, get-set_each_set}
use code_butler.Rules.Attestations.{
  Host, AttestationEntry, AttestationState, entries_of, win_all, win_states, merged_entries,
  is_live, merged_rule, rule_ids, merge_attestations,
}

module _ (h : Host) where
  entries_of_absent :
      (state : AttestationState) (id : String)
      → contains id (keys state) ≡ false
      → entries_of h state id ≡ []
  entries_of_absent state id e = rw (entries_of, get_absent state id e) refl

  win_states_absent :
      (w : Assoc AttestationEntry) (states : List AttestationState) (id : String)
      → contains id (rule_ids h states) ≡ false
      → win_states h w states id ≡ w
  unfolding win_states win_all
  win_states_absent w [] id e = refl
  win_states_absent w (state ∷ states) id e =
      let split = any-append (λ x. x == id) (keys state) (rule_ids h states) in
      let here = entries_of_absent state id (ground (arith, e, split)) in
      rw here (win_states_absent w states id (ground (arith, e, split)))

  merged_rule_absent :
      (states : List AttestationState) (live : Option (List String)) (now : ℕ) (id : String)
      → contains id (rule_ids h states) ≡ false
      → merged_rule h states live now id ≡ none
  unfolding merged_entries
  merged_rule_absent states live now id e = elim (Bool-cases (is_live h live id)) [
    | inl q ↦ rw (q, win_states_absent [] states id e) refl
    | inr q ↦ rw q refl
  ]

  pub get-merge :
      (states : List AttestationState) (live : Option (List String)) (now : ℕ) (id : String)
      → get (merge_attestations h states live now) id ≡ merged_rule h states live now id
  unfolding merge_attestations
  get-merge states live now id =
      get-set_each_set (merged_rule h states live now) (rule_ids h states) id
        (merged_rule_absent states live now id)
