-- ===== src/Rules/Recording.antt =====
-- rules/attestations.ts: a verification result is recorded or revoked in the ledger file of its
-- rule. The ledger file is the list of its entries; `none` is no file.
pub mod Supersedes
mod Tests
use code_butler.Prelude.{
  ℕ, ◌+◌, String, Bool, true, false, not, ◌&&◌, ◌||◌, Option, none, some, List, [], ◌∷◌, find?, leb,
  ◌==◌, if◌then◌else◌, ◌⊎◌, inl, inr, is_some,
}
use code_butler.Rules.Attestations.{
  SubjectKind, ssh_host, project, AttestationOutcome, satisfied, not_satisfied, exempt, declined,
  revoked, Recorder, agent, user, AttestationSubject, AttestationEntry, Host, subject_id, entry_id,
  if_truthy, merged_rule, is_revoked,
}

-- The errors that are thrown.
pub data RecordError : Type 0 where
  user_outcome_only body_hash_required ttl_not_allowed no_project rule_missing : RecordError
  rule_disabled not_opted_in other_subject rule_changed marked_by_user nothing_recorded :
      RecordError
  invalid_input : RecordError

pub record Verification : Type 0 where
  pub subject : SubjectKind
  pub ttl : String

pub record RuleInfo : Type 0 where
  pub id : String
  pub enabled : Bool
  pub verification : Option Verification
  pub body_hash : String

-- `RecordAttestationInput`
pub record RecordInput : Type 0 where
  pub rule_id : String
  pub subject : AttestationSubject
  pub outcome : AttestationOutcome
  pub rule_body_hash : Option String
  pub ttl : Option String
  pub evidence : Option String

abbrev pub Ledger : Type 0
Ledger = Option (List AttestationEntry)

-- What was recorded, and the ledger file afterwards.
pub record Recorded : Type 0 where
  pub entry : AttestationEntry
  pub ledger : Ledger

-- `throw` if the test holds
abbrev pub reject_if : {A : Type 0} → Bool → RecordError → RecordError ⊎ A → RecordError ⊎ A
reject_if true e rest = inl e
reject_if false e rest = rest

abbrev pub and_then : {A B : Type 0} → RecordError ⊎ A → (A → RecordError ⊎ B) → RecordError ⊎ B
and_then (inl e) f = inl e
and_then (inr a) f = f a

abbrev pub expires : AttestationOutcome → Bool
expires satisfied = true
expires not_satisfied = true
expires _ = false

abbrev pub is_agent : Recorder → Bool
is_agent agent = true
is_agent user = false

abbrev pub same_kind : SubjectKind → SubjectKind → Bool
same_kind ssh_host ssh_host = true
same_kind project project = true
same_kind _ _ = false

abbrev pub or_text : Option String → Option String → Option String
or_text none o = o
or_text (some t) o = some t

abbrev pub entries_in : Ledger → List AttestationEntry
entries_in none = []
entries_in (some es) = es

-- The subject that is derived from the project, if there is one.
abbrev pub resolve_subject :
    Option AttestationSubject → AttestationSubject → RecordError ⊎ AttestationSubject
resolve_subject derived s = elim s.kind [
  | ssh_host ↦ inr s
  | project ↦ elim derived [
    | none ↦ inl no_project
    | some d ↦ inr (record d { label = or_text (if_truthy s.label) d.label })
  ]
]

-- `entries.find(...)`
abbrev pub prior_of : List AttestationEntry → String → Option AttestationEntry
prior_of entries k = find? (λ e. entry_id e == k) entries

abbrev pub is_exempted : AttestationOutcome → Bool
is_exempted exempt = true
is_exempted declined = true
is_exempted _ = false

abbrev pub marked_by : Recorder → Option AttestationEntry → Bool
marked_by by none = false
marked_by by (some e) = is_agent by && not (is_agent e.recorded_by) && is_exempted e.outcome

abbrev pub label_of : Option AttestationEntry → Option String
label_of none = none
label_of (some e) = e.subject.label

abbrev pub agent_may : Recorder → RecordInput → RecordError ⊎ Unit {0}
agent_may user input = inr tt
agent_may agent input = reject_if (not (expires input.outcome)) user_outcome_only (
    reject_if (not (is_some (if_truthy input.rule_body_hash))) body_hash_required
      (reject_if (is_some (if_truthy input.ttl)) ttl_not_allowed (inr tt)))

abbrev pub opted_in : Option RuleInfo → RecordError ⊎ (RuleInfo × Verification)
opted_in none = inl rule_missing
opted_in (some rule) =
    reject_if (not rule.enabled) rule_disabled
      (elim rule.verification [ none ↦ inl not_opted_in | some v ↦ inr (rule, v) ])

abbrev pub hash_differs : Option String → String → Bool
hash_differs none hash = false
hash_differs (some t) hash = not (t == hash)

-- `toISOString` of a time, the length of a time to live, and `USER_ATTESTATION_TTL`.
module _ (h : Host) (to_iso : ℕ → String) (ttl_ms : String → ℕ) (user_ttl : String) where
  -- A later time than that of the stored result.
  unfoldable pub after : ℕ → Option AttestationEntry → ℕ
  after now none = now
  after now (some e) =
      if leb now (h.date_parse e.checked_at) then h.date_parse e.checked_at + 1 else now

  -- `updateLedger`, on the entries of the file.
  unfoldable pub update_ledger :
      String
      → ℕ
      → Ledger
      → (List AttestationEntry → RecordError ⊎ AttestationEntry)
      → RecordError ⊎ Recorded
  update_ledger rule_id now ledger change =
      let entries = entries_in ledger in
      and_then (change entries) λ e. inr (record {
        entry = e;
        ledger =
            merged_rule h (((rule_id, entries) ∷ []) ∷ ((rule_id, e ∷ []) ∷ []) ∷ []) none now
              rule_id;
      })

  abbrev pub ttl_of : Recorder → Verification → Option String → ℕ
  ttl_of agent v ttl = ttl_ms v.ttl
  ttl_of user v none = ttl_ms user_ttl
  ttl_of user v (some t) = ttl_ms t

  -- The entry that `recordAttestation` writes.
  unfoldable pub new_entry :
      Recorder
      → ℕ
      → RuleInfo
      → Verification
      → RecordInput
      → AttestationSubject
      → Option AttestationEntry
      → AttestationEntry
  new_entry by now rule v input subject prior =
      let checked = after now prior in
      record {
        subject = record subject { label = if_truthy (or_text subject.label (label_of prior)) };
        outcome = input.outcome;
        recorded_by = by;
        rule_body_hash = rule.body_hash;
        checked_at = to_iso checked;
        expires_at =
            if expires input.outcome then some (to_iso (checked + ttl_of by v input.ttl)) else none;
        evidence = if_truthy input.evidence;
      }

  -- The change of the ledger that records the result.
  unfoldable pub recorded_entry :
      Recorder
      → ℕ
      → RuleInfo
      → Verification
      → RecordInput
      → AttestationSubject
      → List AttestationEntry
      → RecordError ⊎ AttestationEntry
  recorded_entry by now rule v input subject entries =
      let prior = prior_of entries (subject_id subject) in
      reject_if (marked_by by prior) marked_by_user
        (inr (new_entry by now rule v input subject prior))

  -- The checks of the rule against the input, and the record.
  abbrev pub record_checked :
      Recorder
      → ℕ
      → RecordInput
      → Ledger
      → AttestationSubject
      → RuleInfo × Verification
      → RecordError ⊎ Recorded
  record_checked by now input ledger subject (rule, v) =
      reject_if (not (same_kind v.subject subject.kind)) other_subject (
        reject_if (hash_differs (if_truthy input.rule_body_hash) rule.body_hash) rule_changed
          (update_ledger rule.id now ledger (recorded_entry by now rule v input subject)))

  abbrev pub record_for :
      Recorder
      → ℕ
      → List RuleInfo
      → RecordInput
      → Ledger
      → AttestationSubject
      → RecordError ⊎ Recorded
  record_for by now rules input ledger subject =
      and_then (opted_in (find? (λ r. r.id == input.rule_id) rules))
        (record_checked by now input ledger subject)

  unfoldable pub record_attestation :
      Recorder
      → ℕ
      → List RuleInfo
      → Option AttestationSubject
      → RecordInput
      → Ledger
      → RecordError ⊎ Recorded
  record_attestation by now rules derived input ledger =
      reject_if (is_revoked input.outcome) invalid_input (
        and_then (agent_may by input) λ _.
          and_then (resolve_subject derived input.subject) (record_for by now rules input ledger))

  abbrev pub revocation : ℕ → Option AttestationEntry → RecordError ⊎ AttestationEntry
  revocation now none = inl nothing_recorded
  revocation now (some prior) = reject_if (is_revoked prior.outcome) nothing_recorded (
      inr (record {
        subject = prior.subject;
        outcome = revoked;
        recorded_by = user;
        rule_body_hash = prior.rule_body_hash;
        checked_at = to_iso (after now (some prior));
        expires_at = none;
        evidence = none;
      }))

  unfoldable pub revoke_attestation :
      ℕ → Option AttestationSubject → String → AttestationSubject → Ledger → RecordError ⊎ Recorded
  revoke_attestation now derived rule_id subject ledger =
      and_then (resolve_subject derived subject) λ s.
        update_ledger rule_id now ledger
          (λ entries. revocation now (prior_of entries (subject_id s)))
