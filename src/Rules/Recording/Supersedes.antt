-- ===== src/Rules/Recording/Supersedes.antt =====
-- rules/attestations.ts: the ledger file holds what was recorded last for a subject.
use code_butler.Prelude.{
  ℕ, ◌+◌, ◌≤◌, ◌<◌, String, Bool, true, false, Option, none, some, List, [], ◌∷◌, ◌==◌, eq_iff,
  eq_refl, ◌⊎◌, inl, inr, arith, ◌≡◌, refl, ap, ap₂, ◌∙◌, Bool-cases, lookup, Distinct, Collation,
  lookup-sort, find?,
}
use code_butler.Prelude.Assoc.{get}
use code_butler.Rules.Attestations.{
  AttestationSubject, AttestationEntry, AttestationState, Recorder, Host, subject_id, entry_id,
  if_truthy, canonical_entry, is_newer, newer, entries_of, is_kept, merged_entries, non_empty,
  merged_rule, is_revoked,
}
use code_butler.Rules.Attestations.Entries.{
  latest, top, tops, unsorted, Distinct-unsorted, lookup-unsorted,
}
use code_butler.Rules.Recording.{
  RecordError, Ledger, Recorded, RecordInput, RuleInfo, Verification, reject_if, and_then,
  entries_in, prior_of, after, update_ledger, new_entry, recorded_entry, record_attestation,
  record_for, record_checked, agent_may, opted_in, resolve_subject, hash_differs, ttl_of, marked_by,
  expires,
}

and_then-inr :
    {A B : Type 0} (m : RecordError ⊎ A) (f : A → RecordError ⊎ B) (b : B)
    → and_then m f ≡ inr b
    → (a : A) × (m ≡ inr a) × (f a ≡ inr b)
and_then-inr (inl e) f b h = cc
and_then-inr (inr a) f b h = (a, refl, h)

reject_if-inr :
    {A : Type 0} (t : Bool) (e : RecordError) (rest : RecordError ⊎ A) (a : A)
    → reject_if t e rest ≡ inr a
    → (t ≡ false) × (rest ≡ inr a)
reject_if-inr true e rest a h = cc
reject_if-inr false e rest a h = (refl, h)

entries_in-non_empty : (h : Host) (es : List AttestationEntry) → entries_in (non_empty h es) ≡ es
entries_in-non_empty h [] = refl
entries_in-non_empty h (e ∷ es) = refl

module _ (h : Host) where
  latest-none : (o : Option AttestationEntry) → latest h o none ≡ o
  latest-none none = refl
  latest-none (some e) = refl

  -- Among the entries of a file a subject stands once.
  top-Distinct :
      (k : String) (es : List AttestationEntry) → Distinct entry_id es → top h k es ≡ prior_of es k
  top-Distinct k [] d = refl
  top-Distinct k (e ∷ es) (fresh, d) = elim (Bool-cases (entry_id e == k)) [
    | inl q ↦
        let same = (eq_iff (entry_id e) k).0 q in
        let rest : top h k es ≡ none = top-Distinct k es d ∙ rw (← same) fresh in rw (q, rest) refl
    | inr q ↦ rw q (top-Distinct k es d)
  ]

  -- The entry is later than the stored one, if there is one.
  abbrev IsLater : Option AttestationEntry → AttestationEntry → Type 0
  IsLater none e = Unit
  IsLater (some p) e = h.date_parse p.checked_at < h.date_parse e.checked_at

  latest-IsLater :
      (o : Option AttestationEntry) (e : AttestationEntry)
      → IsLater o e
      → latest h o (some e) ≡ some e
  unfolding newer is_newer
  latest-IsLater none e l = refl
  latest-IsLater (some p) e l = ground (arith, l)

  get_one :
      (id : String) (es : List AttestationEntry)
      → get {V = List AttestationEntry} ((id, es) ∷ []) id ≡ some es
  unfolding get
  get_one id es = ground (arith, eq_refl id)

  entries_of_one : (id : String) (es : List AttestationEntry) → entries_of h ((id, es) ∷ []) id ≡ es
  entries_of_one id es = rw (entries_of, get_one id es) refl

  top_one : (e : AttestationEntry) → top h (entry_id e) (e ∷ []) ≡ some e
  top_one e = ground (arith, eq_refl (entry_id e))

  merged_entries-recorded :
      Collation h.locale_compare
      → (now : ℕ) (id : String) (entries : List AttestationEntry) (e : AttestationEntry)
      → Distinct entry_id entries
      → IsLater (prior_of entries (entry_id e)) e
      → is_kept h now e ≡ true
      → lookup entry_id
          (entry_id e)
          (merged_entries h now (((id, entries) ∷ []) ∷ ((id, e ∷ []) ∷ []) ∷ []) id)
        ≡ some (canonical_entry e)
  unfolding merged_entries
  merged_entries-recorded collation now id entries e d later kept =
      let states : List AttestationState = ((id, entries) ∷ []) ∷ ((id, e ∷ []) ∷ []) ∷ [] in
      let k = entry_id e in
      let winner : tops h id k states ≡ some e =
        ap₂ (λ es fs. latest h (top h k es) (latest h (top h k fs) none))
          (entries_of_one id entries) (entries_of_one id (e ∷ []))
        ∙ ap₂ (λ o p. latest h o (latest h p none)) (top-Distinct k entries d) (top_one e)
        ∙ latest-IsLater (prior_of entries k) e later in
      lookup-sort entry_id collation k (unsorted h now states id)
        (Distinct-unsorted h now states id)
      ∙ lookup-unsorted h now states id k
      ∙ rw (winner, kept) refl

module _ (h : Host) (to_iso : ℕ → String) (ttl_ms : String → ℕ) (user_ttl : String)
    (parses : (t : ℕ) → h.date_parse (to_iso t) ≡ t) where
  after_bounds :
      (now : ℕ) (prior : Option AttestationEntry) (e : AttestationEntry)
      → e.checked_at ≡ to_iso (after h to_iso ttl_ms user_ttl now prior)
      → IsLater h prior e × (now ≤ h.date_parse e.checked_at)
  unfolding after
  after_bounds now none e q = (tt, ground (arith, parses now, ap h.date_parse q))
  after_bounds now (some p) e q =
      let at = after h to_iso ttl_ms user_ttl now (some p) in
      let is_at : h.date_parse e.checked_at ≡ at = ap h.date_parse q ∙ parses at in
      (ground (arith, is_at), ground (arith, is_at))

  after-le :
      (now : ℕ) (prior : Option AttestationEntry) → now ≤ after h to_iso ttl_ms user_ttl now prior
  unfolding after
  after-le now none = omega arith
  after-le now (some p) = ground arith

  -- What `recordAttestation` writes is not pruned at once.
  new_entry_kept :
      (by : Recorder) (now : ℕ) (rule : RuleInfo) (v : Verification) (input : RecordInput)
      (subject : AttestationSubject) (prior : Option AttestationEntry)
      → is_revoked input.outcome ≡ false
      → is_kept h now (new_entry h to_iso ttl_ms user_ttl by now rule v input subject prior) ≡ true
  unfolding is_kept new_entry if_truthy
  new_entry_kept by now rule v input subject prior r =
      let at =
        after h to_iso ttl_ms user_ttl now prior + ttl_of h to_iso ttl_ms user_ttl by v input.ttl in
      let not_before : now ≤ h.date_parse (to_iso at) =
        omega (arith, parses at, after-le now prior) in
      elim (Bool-cases (expires input.outcome)) [
        | inl e ↦
            rw (r, e)
              (elim (Bool-cases (to_iso at == "")) [
                | inl q ↦ rw q refl
                | inr q ↦ rw q (ground (arith, not_before))
              ])
        | inr e ↦ rw (r, e) refl
      ]

  update_ledger-inr :
      (id : String) (now : ℕ) (ledger : Ledger)
      (change : List AttestationEntry → RecordError ⊎ AttestationEntry) (r : Recorded)
      → Collation h.locale_compare
      → Distinct entry_id (entries_in ledger)
      → update_ledger h to_iso ttl_ms user_ttl id now ledger change ≡ inr r
      → ((e : AttestationEntry)
          → change (entries_in ledger) ≡ inr e
          → IsLater h (prior_of (entries_in ledger) (entry_id e)) e × (is_kept h now e ≡ true))
      → lookup entry_id (entry_id r.entry) (entries_in r.ledger) ≡ some (canonical_entry r.entry)
  unfolding update_ledger
  update_ledger-inr id now ledger change r collation d e keeps =
      let (x, changed, is_r) = and_then-inr (change (entries_in ledger)) _ r e in
      let (later, kept) = keeps x changed in
      let same : record {
        entry = x;
        ledger =
            merged_rule h (((id, entries_in ledger) ∷ []) ∷ ((id, x ∷ []) ∷ []) ∷ []) none now id;
      }
          ≡ r =
        cc in
      rw (← same) (
        ap (lookup entry_id (entry_id x)) (entries_in-non_empty h _)
        ∙ merged_entries-recorded h collation now id (entries_in ledger) x d later kept)

  record_checked-inr :
      (by : Recorder) (now : ℕ) (input : RecordInput) (ledger : Ledger)
      (subject : AttestationSubject) (p : RuleInfo × Verification) (r : Recorded)
      → Collation h.locale_compare
      → Distinct entry_id (entries_in ledger)
      → is_revoked input.outcome ≡ false
      → record_checked h to_iso ttl_ms user_ttl by now input ledger subject p ≡ inr r
      → lookup entry_id (entry_id r.entry) (entries_in r.ledger) ≡ some (canonical_entry r.entry)
  unfolding recorded_entry new_entry subject_id
  record_checked-inr by now input ledger subject (rule, v) r collation d valid e =
      let change = recorded_entry h to_iso ttl_ms user_ttl by now rule v input subject in
      let updated = update_ledger h to_iso ttl_ms user_ttl rule.id now ledger change in
      let hash_wrong = hash_differs (if_truthy input.rule_body_hash) rule.body_hash in
      let (_, e1) =
        reject_if-inr _ RecordError.other_subject
          (reject_if hash_wrong RecordError.rule_changed updated) r e in
      let (_, e2) = reject_if-inr hash_wrong RecordError.rule_changed updated r e1 in
      update_ledger-inr rule.id now ledger change r collation d e2 λ x changed.
        let prior = prior_of (entries_in ledger) (subject_id subject) in
        let new = new_entry h to_iso ttl_ms user_ttl by now rule v input subject prior in
        let (_, is_x) =
          reject_if-inr (marked_by by prior) RecordError.marked_by_user (inr new) x changed in
        let same : new ≡ x = cc in
        let bounds = after_bounds now prior new refl in
        rw (← same) (bounds.0, new_entry_kept by now rule v input subject prior valid)

  -- If `recordAttestation` returns, the ledger file holds under the subject of the result what was
  -- recorded, whatever it held before, if no subject stands twice in the file, `toISOString` and
  -- `Date.parse` are inverse, and `localeCompare` is a strict total order.
  pub record_attestation_supersedes :
      (by : Recorder) (now : ℕ) (rules : List RuleInfo) (derived : Option AttestationSubject)
      (input : RecordInput) (ledger : Ledger) (r : Recorded)
      → Collation h.locale_compare
      → Distinct entry_id (entries_in ledger)
      → record_attestation h to_iso ttl_ms user_ttl by now rules derived input ledger ≡ inr r
      → lookup entry_id (entry_id r.entry) (entries_in r.ledger) ≡ some (canonical_entry r.entry)
  unfolding record_attestation
  record_attestation_supersedes by now rules derived input ledger r collation d e =
      let record_it = record_for h to_iso ttl_ms user_ttl by now rules input ledger in
      let resolved = and_then (resolve_subject derived input.subject) record_it in
      let allowed = agent_may by input in
      let (valid, e1) =
        reject_if-inr (is_revoked input.outcome) RecordError.invalid_input
          (and_then allowed (λ _. resolved)) r e in
      let (_, _, e2) = and_then-inr allowed (λ _. resolved) r e1 in
      let (subject, _, e3) = and_then-inr (resolve_subject derived input.subject) record_it r e2 in
      let (p, _, e4) =
        and_then-inr (opted_in (find? (λ a. a.id == input.rule_id) rules))
          (record_checked h to_iso ttl_ms user_ttl by now input ledger subject) r e3 in
      record_checked-inr by now input ledger subject p r collation d valid e4
