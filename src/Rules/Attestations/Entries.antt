-- ===== src/Rules/Attestations/Entries.antt =====
-- rules/attestation-ledger.ts: what `mergeAttestations` keeps under one rule and one subject, in
-- terms of all the entries that the states have there.
use code_butler.Prelude.{
  ℕ, Option-cases, Distinct-map, Distinct-filter, lookup-map, lookup-filter, map_option, keep_if,
  Option, none, some, String, List, [], ◌∷◌, map, filter, arith, ◌≡◌, refl, sym, ap, ◌∙◌, ◌==◌,
  eq_iff, if◌then◌else◌, lookup, Distinct, Bool-cases, inl, inr,
}
use code_butler.Prelude.Assoc.{Assoc, get, get-put}
use code_butler.Prelude.KeyedMap.{
  values, Keyed, put-Keyed, get-Keyed, lookup-values, Distinct-values,
}
use code_butler.Rules.Attestations.{
  Host, AttestationEntry, AttestationState, entry_id, subject_id, canonical_entry, newer,
  newer_than, win, win_all, win_states, entries_of, is_kept,
}
use code_butler.Rules.Attestations.Winner.{newer_assoc}

module _ (h : Host) where
  -- The later of two entries, either of which may be missing.
  abbrev pub latest : Option AttestationEntry → Option AttestationEntry → Option AttestationEntry
  latest none o = o
  latest (some a) none = some a
  latest (some a) (some b) = some (newer h a b)

  -- The latest of the entries of the subject `k`.
  abbrev pub top : String → List AttestationEntry → Option AttestationEntry
  top k [] = none
  top k (e ∷ es) = latest (if entry_id e == k then some e else none) (top k es)

  abbrev pub tops : String → String → List AttestationState → Option AttestationEntry
  tops id k [] = none
  tops id k (state ∷ states) = latest (top k (entries_of h state id)) (tops id k states)

  pub latest_assoc :
      (a b c : Option AttestationEntry) → latest a (latest b c) ≡ latest (latest a b) c
  latest_assoc none b c = refl
  latest_assoc (some a) none c = refl
  latest_assoc (some a) (some b) none = refl
  latest_assoc (some a) (some b) (some c) = ap some (newer_assoc h a b c)

  latest-none : (o : Option AttestationEntry) → latest o none ≡ o
  latest-none none = refl
  latest-none (some a) = refl

  newer_than-latest :
      (o : Option AttestationEntry) (e : AttestationEntry)
      → some (newer_than h o e) ≡ latest o (some e)
  newer_than-latest none e = refl
  newer_than-latest (some a) e = refl

  get-win :
      (w : Assoc AttestationEntry) (e : AttestationEntry) (k : String)
      → get (win h w e) k ≡ latest (get w k) (if entry_id e == k then some e else none)
  unfolding win
  get-win w e k = elim (Bool-cases (entry_id e == k)) [
    | inl q ↦
        let same = (eq_iff (entry_id e) k).0 q in
        get-put w (entry_id e) k (newer_than h (get w (entry_id e)) e)
        ∙ rw (q, same) (newer_than-latest (get w k) e)
    | inr q ↦
        get-put w (entry_id e) k (newer_than h (get w (entry_id e)) e)
        ∙ rw q (sym (latest-none (get w k)))
  ]

  get-win_all :
      (w : Assoc AttestationEntry) (es : List AttestationEntry) (k : String)
      → get (win_all h w es) k ≡ latest (get w k) (top k es)
  unfolding win_all
  get-win_all w [] k = sym (latest-none (get w k))
  get-win_all w (e ∷ es) k =
      get-win_all (win h w e) es k
      ∙ ap (λ o. latest o (top k es)) (get-win w e k)
      ∙ sym (latest_assoc (get w k) (if entry_id e == k then some e else none) (top k es))

  pub get-win_states :
      (w : Assoc AttestationEntry) (states : List AttestationState) (id k : String)
      → get (win_states h w states id) k ≡ latest (get w k) (tops id k states)
  unfolding win_states
  get-win_states w [] id k = sym (latest-none (get w k))
  get-win_states w (state ∷ states) id k =
      get-win_states (win_all h w (entries_of h state id)) states id k
      ∙ ap (λ o. latest o (tops id k states)) (get-win_all w (entries_of h state id) k)
      ∙ sym (latest_assoc (get w k) (top k (entries_of h state id)) (tops id k states))

  entry_id-newer :
      (a b : AttestationEntry) (k : String)
      → entry_id a ≡ k
      → entry_id b ≡ k
      → entry_id (newer h a b) ≡ k
  unfolding newer
  entry_id-newer a b k p q = ground (arith, p, q)

  win-Keyed :
      (w : Assoc AttestationEntry) (e : AttestationEntry)
      → Keyed entry_id w
      → Keyed entry_id (win h w e)
  unfolding win
  win-Keyed w e q = elim (Option-cases (get w (entry_id e))) [
    | inl g ↦ rw g (put-Keyed entry_id w (entry_id e) e refl q)
    | inr (prior, g) ↦
        let keyed =
          entry_id-newer prior e (entry_id e) (get-Keyed entry_id w (entry_id e) prior q g) refl in
        rw g (put-Keyed entry_id w (entry_id e) (newer h prior e) keyed q)
  ]

  win_all-Keyed :
      (w : Assoc AttestationEntry) (es : List AttestationEntry)
      → Keyed entry_id w
      → Keyed entry_id (win_all h w es)
  unfolding win_all
  win_all-Keyed w [] q = q
  win_all-Keyed w (e ∷ es) q = win_all-Keyed (win h w e) es (win-Keyed w e q)

  win_states-Keyed :
      (w : Assoc AttestationEntry) (states : List AttestationState) (id : String)
      → Keyed entry_id w
      → Keyed entry_id (win_states h w states id)
  unfolding win_states
  win_states-Keyed w [] id q = q
  win_states-Keyed w (state ∷ states) id q =
      win_states-Keyed (win_all h w (entries_of h state id)) states id
        (win_all-Keyed w (entries_of h state id) q)

  -- The list that `mergeAttestations` sorts.
  abbrev pub unsorted : ℕ → List AttestationState → String → List AttestationEntry
  unsorted now states id =
      map canonical_entry (filter (is_kept h now) (values (win_states h [] states id)))

  entry_id-canonical : (e : AttestationEntry) → entry_id (canonical_entry e) ≡ entry_id e
  unfolding canonical_entry subject_id
  entry_id-canonical e = refl

  pub Distinct-unsorted :
      (now : ℕ) (states : List AttestationState) (id : String)
      → Distinct entry_id (unsorted now states id)
  Distinct-unsorted now states id =
      Distinct-map entry_id canonical_entry entry_id-canonical
        (filter (is_kept h now) (values (win_states h [] states id)))
        (Distinct-filter entry_id (is_kept h now) (values (win_states h [] states id))
          (Distinct-values entry_id (win_states h [] states id) (win_states-Keyed [] states id tt)))

  pub lookup-unsorted :
      (now : ℕ) (states : List AttestationState) (id k : String)
      → lookup entry_id k (unsorted now states id)
        ≡ map_option canonical_entry (keep_if (is_kept h now) (tops id k states))
  unfolding get
  lookup-unsorted now states id k =
      let w = win_states h [] states id in
      let keyed = win_states-Keyed [] states id tt in
      lookup-map entry_id canonical_entry entry_id-canonical k (filter (is_kept h now) (values w))
      ∙ ap (map_option canonical_entry) (
          lookup-filter entry_id (is_kept h now) k (values w) (Distinct-values entry_id w keyed)
          ∙ ap (keep_if (is_kept h now))
              (lookup-values entry_id w k keyed ∙ get-win_states [] states id k))
