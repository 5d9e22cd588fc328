-- ===== src/Rules/Attestations/Pruning.antt =====
-- rules/attestation-ledger.ts: what the merge keeps is the latest, and what it prunes stays out.
use code_butler.Prelude.{
  ℕ, Collation, ◌+◌, ◌*◌, ◌≤◌, Option, none, some, true, false, String, List, [], ◌∷◌, All, In,
  All-In, arith, ◌≡◌, refl, sym, ◌∙◌, ◌==◌, eq_iff, if◌then◌else◌, Bool-cases, inl, inr, lookup,
  map_option, keep_if, lookup-sort,
}
use code_butler.Rules.Attestations.{
  Host, AttestationEntry, AttestationState, entry_id, canonical_entry, if_truthy, is_kept,
  is_revoked, day, is_newer, newer, entries_of, merged_entries,
}
use code_butler.Rules.Attestations.Entries.{
  latest, top, tops, unsorted, Distinct-unsorted, lookup-unsorted,
}

-- The longest time for which a result may be valid (`rules/format.ts`).
abbrev pub max_ttl : ℕ
max_ttl = 365 * day

-- An expiring result is pruned by the time that a tombstone which is not older than it is pruned,
-- if it was recorded with at most the longest time to live.
pub pruned_tombstone_safe :
    (h : Host) (now : ℕ) (tombstone e : AttestationEntry) (at : String)
    → is_revoked tombstone.outcome ≡ true
    → is_kept h now tombstone ≡ false
    → h.date_parse e.checked_at ≤ h.date_parse tombstone.checked_at
    → is_revoked e.outcome ≡ false
    → if_truthy e.expires_at ≡ some at
    → h.date_parse at ≤ h.date_parse e.checked_at + max_ttl
    → is_kept h now e ≡ false
unfolding is_kept
pruned_tombstone_safe h now tombstone e at r p older k x short = ground (arith, r, p, k, x)

module _ (h : Host) where
  abbrev at : AttestationEntry → ℕ
  at e = h.date_parse e.checked_at

  -- Nothing, or a value that is at least as late as `n`.
  abbrev NotBefore : ℕ → Option AttestationEntry → Type 0
  NotBefore n none = ⊥
  NotBefore n (some w) = n ≤ at w

  latest_left : (n : ℕ) (a b : Option AttestationEntry) → NotBefore n a → NotBefore n (latest h a b)
  unfolding newer is_newer
  latest_left n none b l = absurd l
  latest_left n (some a) none l = l
  latest_left n (some a) (some b) l = ground (arith, l)

  latest_right :
      (n : ℕ) (a b : Option AttestationEntry) → NotBefore n b → NotBefore n (latest h a b)
  unfolding newer is_newer
  latest_right n none b l = l
  latest_right n (some a) none l = absurd l
  latest_right n (some a) (some b) l = ground (arith, l)

  -- Every entry of the subject in a list is no later than `o`.
  abbrev pub Covers : String → List AttestationEntry → Option AttestationEntry → Type 0
  Covers k es o = All (λ e. entry_id e ≡ k → NotBefore (at e) o) es

  Covers-mono :
      (k : String) (es : List AttestationEntry) (o p : Option AttestationEntry)
      → ((n : ℕ) → NotBefore n o → NotBefore n p)
      → Covers k es o
      → Covers k es p
  Covers-mono k [] o p f c = tt
  Covers-mono k (e ∷ es) o p f (c, cs) = (λ q. f (at e) (c q), Covers-mono k es o p f cs)

  top-Covers : (k : String) (es : List AttestationEntry) → Covers k es (top h k es)
  top-Covers k [] = tt
  top-Covers k (e ∷ es) = (
    λ q. rw ((eq_iff (entry_id e) k).1 q) (latest_left (at e) (some e) (top h k es) (omega arith)),
    Covers-mono k es (top h k es) (top h k (e ∷ es))
        (λ n. latest_right n (if entry_id e == k then some e else none) (top h k es))
        (top-Covers k es),
  )

  -- No entry of the subject in any state is later than `o`.
  abbrev pub CoversAll : String → String → List AttestationState → Option AttestationEntry → Type 0
  CoversAll id k states o = All (λ s. Covers k (entries_of h s id) o) states

  CoversAll-mono :
      (id k : String) (states : List AttestationState) (o p : Option AttestationEntry)
      → ((n : ℕ) → NotBefore n o → NotBefore n p)
      → CoversAll id k states o
      → CoversAll id k states p
  CoversAll-mono id k [] o p f c = tt
  CoversAll-mono id k (s ∷ states) o p f (c, cs) =
      (Covers-mono k (entries_of h s id) o p f c, CoversAll-mono id k states o p f cs)

  tops-Covers :
      (id k : String) (states : List AttestationState) → CoversAll id k states (tops h id k states)
  tops-Covers id k [] = tt
  tops-Covers id k (s ∷ states) =
      let here = top h k (entries_of h s id) in
      (
        Covers-mono k (entries_of h s id) here (tops h id k (s ∷ states))
            (λ n. latest_left n here (tops h id k states)) (top-Covers k (entries_of h s id)),
        CoversAll-mono id k states (tops h id k states) (tops h id k (s ∷ states))
            (λ n. latest_right n here (tops h id k states)) (tops-Covers id k states),
      )

  kept_time :
      (now : ℕ) (o : Option AttestationEntry) (x : AttestationEntry)
      → map_option canonical_entry (keep_if (is_kept h now) o) ≡ some x
      → (w : AttestationEntry) × (o ≡ some w) × (x ≡ canonical_entry w) × (is_kept h now w ≡ true)
  kept_time now none x e = cc
  kept_time now (some w) x e = elim (Bool-cases (is_kept h now w)) [
    | inl q ↦ (w, refl, ground (arith, e, q), q)
    | inr q ↦ absurd (ground (arith, e, q))
  ]

  if_truthy_twice : (o : Option String) → if_truthy (if_truthy o) ≡ if_truthy o
  unfolding if_truthy
  if_truthy_twice none = refl
  if_truthy_twice (some t) = ground arith

  is_kept-canonical :
      (now : ℕ) (w : AttestationEntry)
      → is_kept h now w ≡ true
      → is_kept h now (canonical_entry w) ≡ true
  unfolding is_kept canonical_entry
  is_kept-canonical now w q = rw (if_truthy_twice w.expires_at) q

-- The result that the merge keeps for a subject of a rule is no older than any entry of that
-- subject under that rule in any of the merged states, and it is not one that is to be pruned, if
-- `localeCompare` is a strict total order.
pub merged_entries_latest :
    (h : Host)
    → Collation h.locale_compare
    → (now : ℕ) (states : List AttestationState) (id k : String) (x : AttestationEntry)
    → lookup entry_id k (merged_entries h now states id) ≡ some x
    → (state : AttestationState) (e : AttestationEntry) → In state states
    → In e (entries_of h state id)
    → entry_id e ≡ k
    → (h.date_parse e.checked_at ≤ h.date_parse x.checked_at) × (is_kept h now x ≡ true)
unfolding merged_entries canonical_entry
merged_entries_latest h collation now states id k x found state e in_states in_entries about =
    let same =
      sym (
        lookup-sort entry_id collation k (unsorted h now states id)
          (Distinct-unsorted h now states id)
        ∙ lookup-unsorted h now states id k)
      ∙ found in
    let (w, at_w, is_w, kept) = kept_time h now (tops h id k states) x same in
    let covered =
      All-In (λ s. Covers h k (entries_of h s id) (tops h id k states)) states state
        (tops-Covers h id k states) in_states in
    let not_later =
      All-In (λ a. entry_id a ≡ k → NotBefore h (at h a) (tops h id k states))
        (entries_of h state id) e covered in_entries about in
    let at_most = rw at_w at not_later in rw is_w (at_most, is_kept-canonical h now w kept)
