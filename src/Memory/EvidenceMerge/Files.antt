-- ===== src/Memory/EvidenceMerge/Files.antt =====
-- The files that a candidate names.
use code_butler.Prelude.{
  ℕ, ◌≤◌, String, Bool, true, List, [], ◌∷◌, ◌++◌, length, any, max, ◌==◌, ◌≡◌, refl, inl, inr,
  if◌then◌else◌, arith, eq_iff, contains, length-take,
}
use code_butler.Memory.EvidenceMerge.{dedupe, merge_related_files}
use code_butler.Memory.EvidenceMerge.Sources.{any-take_front, any-dedupe}

module _ {ℓ} {A : Type ℓ} (same : A → A → Bool) where
  -- What was seen after the first part of a list.
  seen_after : List A → List A → List A
  seen_after seen [] = seen
  seen_after seen (x ∷ xs) =
      let skip = seen_after seen xs in
      let keep = seen_after (x ∷ seen) xs in if any (same x) seen then skip else keep

  dedupe-append :
      (seen xs ys : List A)
      → dedupe same seen (xs ++ ys) ≡ dedupe same seen xs ++ dedupe same (seen_after seen xs) ys
  unfolding dedupe seen_after
  dedupe-append seen [] ys = refl
  dedupe-append seen (x ∷ xs) ys =
      ground (arith, dedupe-append seen xs ys, dedupe-append (x ∷ seen) xs ys)

  length-dedupe-le : (seen xs : List A) → length (dedupe same seen xs) ≤ length xs
  unfolding dedupe
  length-dedupe-le seen [] = omega arith
  length-dedupe-le seen (x ∷ xs) =
      ground (arith, length-dedupe-le seen xs, length-dedupe-le (x ∷ seen) xs)

-- A merge drops no file that the candidate names, and leaves at most as many files as the cap or
-- as the candidate had, whichever is more.
pub merge_related_files-kept :
    (existing incoming : List String) (cap : ℕ) (file : String)
    → contains file existing ≡ true
    → (any (λ f. f == file) (merge_related_files existing incoming cap) ≡ true)
      × (length (merge_related_files existing incoming cap) ≤ max cap (length existing))
unfolding merge_related_files
merge_related_files-kept existing incoming cap file h =
    let same = λ (a b : String). b == a in
    let rest = dedupe same (seen_after same [] existing) incoming in
    let front : any (λ f. f == file) (dedupe same [] existing) ≡ true =
      elim (any-dedupe same same_trans file [] existing h) [
        | inl none_seen ↦ ground arith
        | inr k ↦ k
      ] in
    let short = length-dedupe-le same [] existing in
    (
      rw (dedupe-append same [] existing incoming) (
          any-take_front (λ f. f == file) (max cap (length existing)) (dedupe same [] existing) rest
            (omega arith) front),
      omega
          (arith, length-take (max cap (length existing)) (dedupe same [] (existing ++ incoming))),
    )
  where
    same_trans : (a b c : String) → (b == a) ≡ true → (c == b) ≡ true → (c == a) ≡ true
    same_trans a b c h k = ground (arith, eq_iff b a, eq_iff c b, eq_iff c a)
