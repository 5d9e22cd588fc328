-- ===== src/Rules/Attestations.antt =====
-- rules/attestation-ledger.ts: recorded verification results for global rules, merged between
-- devices by the last writer, with revoked results as tombstones.
pub mod Winner
pub mod Entries
mod Outcome
pub mod Convergence
pub mod Pruning
mod Tests
use Prim.Native.String as String
use code_butler.Prelude.{
  ℕ, ◌+◌, ◌*◌, String, Bool, true, false, not, ◌&&◌, ◌||◌, Option, none, some, List, [], ◌∷◌, ◌++◌,
  map, filter, contains, as_set, leb, ltb, nat_eq, sort_by, Ordering, ◌==◌, if◌then◌else◌,
}
use code_butler.Prelude.Assoc.{Assoc, get, put, keys}
use code_butler.Prelude.Collect.{set_each}
use code_butler.Prelude.KeyedMap.{values}
use Prim.Native.String.{compare}

pub data SubjectKind : Type 0 where
  ssh_host project : SubjectKind

pub data AttestationOutcome : Type 0 where
  satisfied not_satisfied exempt declined revoked : AttestationOutcome

pub data Recorder : Type 0 where
  agent user : Recorder

pub record AttestationSubject : Type 0 where
  pub kind : SubjectKind
  pub key : String
  pub label : Option String

pub record AttestationEntry : Type 0 where
  pub subject : AttestationSubject
  pub outcome : AttestationOutcome
  pub recorded_by : Recorder
  pub rule_body_hash : String
  pub checked_at : String
  pub expires_at : Option String
  pub evidence : Option String

-- Rule id to one entry per subject.
abbrev pub AttestationState : Type 0
AttestationState = Assoc (List AttestationEntry)

-- `Date.parse` in milliseconds, `contentHash(JSON.stringify(...))` of an entry, and `localeCompare`.
pub record Host : Type 0 where
  pub date_parse : String → ℕ
  pub digest : AttestationEntry → String
  pub locale_compare : String → String → Ordering

abbrev pub day : ℕ
day = 86400000

abbrev pub expired_grace_ms : ℕ
expired_grace_ms = 30 * day

abbrev pub tombstone_ms : ℕ
tombstone_ms = 400 * day

abbrev pub kind_text : SubjectKind → String
kind_text ssh_host = "ssh-host"
kind_text project = "project"

unfoldable pub subject_id : AttestationSubject → String
subject_id s = String.◌++◌ (String.◌++◌ (kind_text s.kind) ":") s.key

abbrev pub entry_id : AttestationEntry → String
entry_id e = subject_id e.subject

-- `...(text ? { field: text } : {})`
unfoldable pub if_truthy : Option String → Option String
if_truthy none = none
if_truthy (some t) = if t == "" then none else some t

unfoldable pub canonical_entry : AttestationEntry → AttestationEntry
canonical_entry e = record e {
  subject = record e.subject { label = if_truthy e.subject.label };
  expires_at = if_truthy e.expires_at;
  evidence = if_truthy e.evidence;
}

abbrev pub is_revoked : AttestationOutcome → Bool
is_revoked revoked = true
is_revoked _ = false

-- `a > b` on texts
abbrev pub text_gt : String → String → Bool
text_gt a b = elim (compare a b) [ Ordering.gt ↦ true | _ ↦ false ]

module _ (h : Host) where
  unfoldable pub entry_hash : AttestationEntry → String
  entry_hash e = h.digest (canonical_entry e)

  -- `order > 0 || (order === 0 && entryHash(a) > entryHash(b))`
  unfoldable pub is_newer : AttestationEntry → AttestationEntry → Bool
  is_newer a b =
      let at_a = h.date_parse a.checked_at in
      let at_b = h.date_parse b.checked_at in
      ltb at_b at_a || nat_eq at_a at_b && text_gt (entry_hash a) (entry_hash b)

  unfoldable pub newer : AttestationEntry → AttestationEntry → AttestationEntry
  newer a b = if is_newer a b then a else b

  abbrev pub newer_than : Option AttestationEntry → AttestationEntry → AttestationEntry
  newer_than none e = e
  newer_than (some prior) e = newer prior e

  -- One round of the inner loop: the entry is set under its subject if it wins.
  unfoldable pub win : Assoc AttestationEntry → AttestationEntry → Assoc AttestationEntry
  win winners e = put winners (entry_id e) (newer_than (get winners (entry_id e)) e)

  unfoldable pub win_all : Assoc AttestationEntry → List AttestationEntry → Assoc AttestationEntry
  win_all winners [] = winners
  win_all winners (e ∷ es) = win_all (win winners e) es

  abbrev pub entries_of : AttestationState → String → List AttestationEntry
  entries_of state id = elim (get state id) [ none ↦ [] | some es ↦ es ]

  -- The two loops over the states and their entries for one rule.
  unfoldable pub win_states :
      Assoc AttestationEntry → List AttestationState → String → Assoc AttestationEntry
  win_states winners [] id = winners
  win_states winners (state ∷ states) id =
      win_states (win_all winners (entries_of state id)) states id

  -- The predicate of `kept`, at the time `now`.
  unfoldable pub is_kept : ℕ → AttestationEntry → Bool
  is_kept now e =
      if is_revoked e.outcome
      then leb now (h.date_parse e.checked_at + tombstone_ms)
      else elim (if_truthy e.expires_at) [
        | none ↦ true
        | some at ↦ leb now (h.date_parse at + expired_grace_ms)
      ]

  -- `kept`, mapped and sorted.
  unfoldable pub merged_entries : ℕ → List AttestationState → String → List AttestationEntry
  merged_entries now states id =
      sort_by (λ a b. h.locale_compare (entry_id a) (entry_id b))
        (map canonical_entry (filter (is_kept now) (values (win_states [] states id))))

  abbrev pub is_live : Option (List String) → String → Bool
  is_live none id = true
  is_live (some live) id = contains id live

  -- `if (kept.length) merged.set(id, ...)`
  abbrev pub non_empty : List AttestationEntry → Option (List AttestationEntry)
  non_empty [] = none
  non_empty (e ∷ es) = some (e ∷ es)

  -- What the merged state has under a rule: nothing for a rule that is not live.
  abbrev pub merged_rule :
      List AttestationState → Option (List String) → ℕ → String → Option (List AttestationEntry)
  merged_rule states live now id =
      if is_live live id then non_empty (merged_entries now states id) else none

  -- `states.flatMap(state => [...state.keys()])`
  abbrev pub rule_ids : List AttestationState → List String
  rule_ids [] = []
  rule_ids (state ∷ states) = keys state ++ rule_ids states

  unfoldable pub merge_attestations :
      List AttestationState → Option (List String) → ℕ → AttestationState
  merge_attestations states live now =
      set_each (merged_rule states live now) [] (as_set (rule_ids states))

  unfoldable pub valid_attestation : AttestationEntry → String → ℕ → Bool
  valid_attestation e body_hash now = elim e.outcome [
    | exempt ↦ true
    | declined ↦ true
    | satisfied ↦
        e.rule_body_hash == body_hash
        && elim e.expires_at [ none ↦ false | some at ↦ ltb now (h.date_parse at) ]
    | _ ↦ false
  ]
