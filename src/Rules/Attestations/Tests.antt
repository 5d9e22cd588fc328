-- ===== src/Rules/Attestations/Tests.antt =====
-- Results of two devices, the theorems about them at these, and a tombstone that outlives its use.
use Prim.Native.String.{compare, len}
use code_butler.Prelude.{
  ℕ, ◌≤◌, Option, none, some, true, false, String, [], ◌∷◌, arith, ◌≡◌, refl, sym, ap, inl, ◌∙◌,
  ◌*◌, ◌==◌, if◌then◌else◌, Collation-compare,
}
use code_butler.Prelude.Assoc.{get, put}
use code_butler.Prelude.Collect.{set_each}
use code_butler.Prelude.Pairing.{pair_text, option_text, pair_text_injective, option_text_injective}
use mathlib.Core.List.{Permᴰ}
use code_butler.Rules.Attestations.{
  SubjectKind, ssh_host, project, AttestationOutcome, satisfied, not_satisfied, exempt, declined,
  revoked, Recorder, agent, user, AttestationSubject, AttestationEntry, AttestationState, Host,
  subject_id, if_truthy, canonical_entry, entry_hash, is_newer, newer, win, win_all, win_states,
  is_kept, merged_entries, merge_attestations,
}
use code_butler.Rules.Attestations.Winner.{HostLaws}
use code_butler.Rules.Attestations.Convergence.{merge_attestations_order_free}
use code_butler.Rules.Attestations.Pruning.{pruned_tombstone_safe, merged_entries_latest}

abbrev kind_mark : SubjectKind → String
kind_mark ssh_host = "h"
kind_mark project = "p"

abbrev outcome_mark : AttestationOutcome → String
outcome_mark satisfied = "s"
outcome_mark not_satisfied = "n"
outcome_mark exempt = "e"
outcome_mark declined = "d"
outcome_mark revoked = "r"

abbrev recorder_mark : Recorder → String
recorder_mark agent = "a"
recorder_mark user = "u"

-- A hash without collisions.
toy_digest : AttestationEntry → String
toy_digest e = pair_text (kind_mark e.subject.kind) (
    pair_text e.subject.key (
      pair_text (option_text e.subject.label) (
        pair_text (outcome_mark e.outcome) (
          pair_text (recorder_mark e.recorded_by) (
            pair_text e.rule_body_hash (
              pair_text e.checked_at
                (pair_text (option_text e.expires_at) (option_text e.evidence))))))))

abbrev mark_kind : String → SubjectKind
mark_kind s = if s == "h" then ssh_host else project

mark-kind : (a : SubjectKind) → mark_kind (kind_mark a) ≡ a
mark-kind ssh_host = refl
mark-kind project = refl

abbrev mark_outcome : String → AttestationOutcome
mark_outcome s =
    if s == "s"
    then satisfied
    else if s == "n"
    then not_satisfied
    else if s == "e"
    then exempt
    else if s == "d"
    then declined
    else revoked

mark-outcome : (a : AttestationOutcome) → mark_outcome (outcome_mark a) ≡ a
mark-outcome satisfied = refl
mark-outcome not_satisfied = refl
mark-outcome exempt = refl
mark-outcome declined = refl
mark-outcome revoked = refl

abbrev mark_recorder : String → Recorder
mark_recorder s = if s == "a" then agent else user

mark-recorder : (a : Recorder) → mark_recorder (recorder_mark a) ≡ a
mark-recorder agent = refl
mark-recorder user = refl

injective_of :
    {A : Type 0} (f : A → String) (g : String → A)
    → ((a : A) → g (f a) ≡ a)
    → (a b : A) → f a ≡ f b
    → a ≡ b
injective_of f g back a b e = sym (back a) ∙ ap g e ∙ back b

toy_digest_injective : (a b : AttestationEntry) → toy_digest a ≡ toy_digest b → a ≡ b
unfolding toy_digest
toy_digest_injective a b e =
    let (kind, e1) = pair_text_injective _ _ _ _ e in
    let (key, e2) = pair_text_injective _ _ _ _ e1 in
    let (label, e3) = pair_text_injective _ _ _ _ e2 in
    let (outcome, e4) = pair_text_injective _ _ _ _ e3 in
    let (recorder, e5) = pair_text_injective _ _ _ _ e4 in
    let (hash, e6) = pair_text_injective _ _ _ _ e5 in
    let (checked, e7) = pair_text_injective _ _ _ _ e6 in
    let (expires, evidence) = pair_text_injective _ _ _ _ e7 in
    let same_kind = injective_of kind_mark mark_kind mark-kind a.subject.kind b.subject.kind kind in
    let same_outcome =
      injective_of outcome_mark mark_outcome mark-outcome a.outcome b.outcome outcome in
    let same_recorder =
      injective_of recorder_mark mark_recorder mark-recorder a.recorded_by b.recorded_by recorder in
    let same_label = option_text_injective a.subject.label b.subject.label label in
    let same_expires = option_text_injective a.expires_at b.expires_at expires in
    let same_evidence = option_text_injective a.evidence b.evidence evidence in
    λ i. record {
      subject = record { kind = same_kind i; key = key i; label = same_label i };
      outcome = same_outcome i;
      recorded_by = same_recorder i;
      rule_body_hash = hash i;
      checked_at = checked i;
      expires_at = same_expires i;
      evidence = same_evidence i;
    }

-- A date is written as so many characters, each of 100 days.
toy_host : Host
toy_host = record {
  date_parse = λ t. len t * 8640000000;
  digest = toy_digest;
  locale_compare = compare;
}

toy_laws : HostLaws toy_host
unfolding toy_host
toy_laws = record { injective = toy_digest_injective; collation = Collation-compare }

abbrev host_project : AttestationSubject
host_project = record { kind = project; key = "local"; label = some "site" }

abbrev result : AttestationOutcome → String → Option String → AttestationEntry
result outcome checked expires = record {
  subject = host_project;
  outcome = outcome;
  recorded_by = user;
  rule_body_hash = "hash";
  checked_at = checked;
  expires_at = expires;
  evidence = none;
}

abbrev laptop : AttestationState
laptop = ("rule", result satisfied "d" (some "ddd") ∷ []) ∷ []

abbrev desktop : AttestationState
desktop = ("rule", result revoked "dd" none ∷ []) ∷ []

abbrev offline : AttestationState
offline = ("rule", result exempt "d" none ∷ []) ∷ []

runs : Unit {0}
unfolding toy_host toy_digest pair_text option_text subject_id if_truthy canonical_entry entry_hash
    is_newer newer win win_all win_states is_kept merged_entries merge_attestations set_each get put
runs = tt

merge_attestations_order_free_example :
    get (merge_attestations toy_host (laptop ∷ desktop ∷ []) none 0) "rule"
    ≡ get (merge_attestations toy_host (desktop ∷ laptop ∷ []) none 0) "rule"
unfolding runs
merge_attestations_order_free_example =
    merge_attestations_order_free toy_laws none 0
      (Permᴰ.swap {a = laptop} {b = desktop} {l = []} refl refl)
      (((refl, tt), tt), (((refl, tt), tt), tt)) "rule"

merged_entries_latest_example :
    (toy_host.date_parse "d" ≤ toy_host.date_parse "dd")
    × (is_kept toy_host 0 (result revoked "dd" none) ≡ true)
unfolding runs
merged_entries_latest_example =
    merged_entries_latest toy_host Collation-compare 0 (laptop ∷ desktop ∷ []) "rule"
      "project:local" (result revoked "dd" none) refl laptop (result satisfied "d" (some "ddd"))
      (inl refl) (inl refl) refl

pruned_tombstone_safe_example :
    is_kept toy_host 60000000000 (result satisfied "d" (some "ddd")) ≡ false
unfolding runs
pruned_tombstone_safe_example =
    pruned_tombstone_safe toy_host 60000000000 (result revoked "dd" none)
      (result satisfied "d" (some "ddd")) "ddd" refl refl (omega arith) refl refl (omega arith)

-- An exemption does not expire: once the tombstone is pruned, a device that was offline since
-- before the revocation brings the exemption back.
exempt_revived :
    let later : ℕ = 60000000000 in
    let published = merge_attestations toy_host (desktop ∷ []) none later in
    (merge_attestations toy_host (desktop ∷ offline ∷ []) none later ≡ [])
    × (get (merge_attestations toy_host (published ∷ offline ∷ []) none later) "rule"
        ≡ some (result exempt "d" none ∷ []))
unfolding runs
exempt_revived = (refl, refl)
