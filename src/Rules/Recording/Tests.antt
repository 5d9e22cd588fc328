-- ===== src/Rules/Recording/Tests.antt =====
-- A result that is recorded by a device whose clock is behind, and the theorem about it.
use Prim.Native.String.{compare}
use code_butler.Prelude.{
  String, true, none, some, List, [], ◌∷◌, ◌≡◌, refl, lookup, Collation-compare,
}
use code_butler.Prelude.Assoc.{get, put}
use code_butler.Prelude.Pairing.{marks, count_marks, count_marks-marks}
use code_butler.Rules.Attestations.{
  ssh_host, satisfied, agent, AttestationSubject, AttestationEntry, Host, subject_id, entry_id,
  if_truthy, canonical_entry, entry_hash, is_newer, newer, win, win_all, win_states, is_kept,
  merged_entries,
}
use code_butler.Rules.Recording.{
  RecordInput, RuleInfo, Recorded, Ledger, entries_in, after, update_ledger, new_entry,
  recorded_entry, record_attestation,
}
use code_butler.Rules.Recording.Supersedes.{record_attestation_supersedes}

toy_host : Host
toy_host = record { date_parse = count_marks; digest = λ e. ""; locale_compare = compare }

abbrev server : AttestationSubject
server = record { kind = ssh_host; key = "SHA256:k"; label = some "me@server" }

abbrev entry : String → String → AttestationEntry
entry checked expires = record {
  subject = server;
  outcome = satisfied;
  recorded_by = agent;
  rule_body_hash = "hash";
  checked_at = checked;
  expires_at = some expires;
  evidence = none;
}

abbrev ledger : Ledger
ledger = some (entry "||||" "||||||" ∷ [])

abbrev rules : List RuleInfo
rules =
    record {
      id = "keys";
      enabled = true;
      verification = some (record { subject = ssh_host; ttl = "2" });
      body_hash = "hash";
    }
    ∷ []

abbrev input : RecordInput
input = record {
  rule_id = "keys";
  subject = server;
  outcome = satisfied;
  rule_body_hash = some "hash";
  ttl = none;
  evidence = none;
}

-- The clock shows 3, and the stored result is of 4.
abbrev recorded : Recorded
recorded = record { entry = entry "|||||" "|||||||"; ledger = some (entry "|||||" "|||||||" ∷ []) }

runs : Unit {0}
unfolding toy_host marks count_marks subject_id if_truthy canonical_entry entry_hash is_newer newer
    win win_all win_states is_kept merged_entries get put after update_ledger new_entry
    recorded_entry record_attestation
runs = tt

record_attestation_supersedes_example :
    lookup entry_id "ssh-host:SHA256:k" (entries_in recorded.ledger)
    ≡ some (canonical_entry recorded.entry)
unfolding runs
record_attestation_supersedes_example =
    record_attestation_supersedes toy_host marks (λ t. 2) "30d" count_marks-marks agent 3 rules none
      input ledger recorded Collation-compare (refl, tt) refl
