-- ===== src/Rules/Attestations/Winner.antt =====
-- rules/attestation-ledger.ts, `newer`: of the entries of one subject the last writer wins,
-- whatever the order in which they are compared.
use code_butler.Prelude.{String, arith, ◌≡◌, Ordering, Collation, Collation-compare}
use Prim.Native.String.{compare}
use code_butler.Rules.Attestations.{
  Host, AttestationEntry, canonical_entry, entry_hash, is_newer, newer,
}

-- What the merge relies on: the hash tells canonical entries apart.
pub record HostLaws (h : Host) : Type 0 where
  pub injective : (a b : AttestationEntry) → h.digest a ≡ h.digest b → a ≡ b
  pub collation : Collation h.locale_compare

-- The entry is as `canonicalEntry` writes it: no optional text is empty.
abbrev pub IsCanonical : AttestationEntry → Type 0
IsCanonical e = canonical_entry e ≡ e

text_cases :
    (s t : String)
    → (compare s t ≡ Ordering.lt → compare t s ≡ Ordering.gt)
      × (compare s t ≡ Ordering.gt → compare t s ≡ Ordering.lt)
      × (compare s t ≡ Ordering.eq → s ≡ t)
text_cases s t =
    let o = Collation-compare in
    (λ e. ground (arith, e, o.trans s t s, o.same s, o.equal t s), o.flip s t, o.equal s t)

module _ {h : Host} (laws : HostLaws h) where
  pub newer_comm :
      (a b : AttestationEntry) → IsCanonical a → IsCanonical b → newer h a b ≡ newer h b a
  unfolding newer is_newer entry_hash
  newer_comm a b ca cb = ground (
    arith,
    text_cases (h.digest (canonical_entry a)) (h.digest (canonical_entry b)),
    laws.injective (canonical_entry a) (canonical_entry b),
    ca,
    cb,
  )

pub newer_assoc :
    (h : Host) (a b c : AttestationEntry) → newer h a (newer h b c) ≡ newer h (newer h a b) c
unfolding newer is_newer entry_hash
newer_assoc h a b c =
    let o = Collation-compare in
    let x = h.digest (canonical_entry a) in
    let y = h.digest (canonical_entry b) in
    let z = h.digest (canonical_entry c) in
    ground (arith, text_cases x y, text_cases y z, text_cases x z, o.trans z y x, o.trans x y z)
