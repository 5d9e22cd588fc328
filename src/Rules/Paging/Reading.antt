-- ===== src/Rules/Paging/Reading.antt =====
-- rules/match.ts, `getApplicableRules`: a reader who follows the cursors of one catalog revision
-- sees every selected rule once.
use code_butler.Prelude.{
  ℕ, zero, suc, ◌+◌, ◌-◌, ◌≤◌, ◌<◌, String, Bool, false, Option, none, some, List, [], ◌∷◌, ◌++◌,
  length, ltb, arith, ◌≡◌, refl, sym, ap, ◌∙◌, if◌then◌else◌, Bool-cases, inl, inr, take, All,
  map_option,
}
use code_butler.Rules.Paging.{
  Selected, RulePage, Diagnostics, empty_page, drop, diagnose, add_diagnostics, finish_page,
  rule_page,
}
use code_butler.Rules.Paging.Serving.{ids, reported, OneId, append_nil, serve-Served}

module _ {A : Type 0} where
  length-drop : (n : ℕ) (xs : List A) → length (drop n xs) ≡ length xs - n
  length-drop zero xs = omega arith
  length-drop (suc n) [] = omega arith
  length-drop (suc n) (x ∷ xs) = omega (arith, length-drop n xs)

  drop_all : (n : ℕ) (xs : List A) → length xs ≤ n → drop n xs ≡ []
  drop_all zero [] le = refl
  drop_all zero (x ∷ xs) le = absurd (omega arith)
  drop_all (suc n) [] le = refl
  drop_all (suc n) (x ∷ xs) le = drop_all n xs (omega arith)

  drop-drop : (m n k : ℕ) (xs : List A) → k ≡ m + n → drop n (drop m xs) ≡ drop k xs
  drop-drop zero n k xs e = ap (λ i. drop i xs) (omega arith)
  drop-drop (suc m) zero k [] e = sym (drop_all k [] (omega arith))
  drop-drop (suc m) (suc n) k [] e = sym (drop_all k [] (omega arith))
  drop-drop (suc m) n zero (x ∷ xs) e = absurd (omega arith)
  drop-drop (suc m) n (suc k) (x ∷ xs) e = drop-drop m n k xs (omega arith)

  drop-All {κ} : (P : A → Type κ) (n : ℕ) (xs : List A) → All P xs → All P (drop n xs)
  drop-All P zero xs a = a
  drop-All P (suc n) [] a = a
  drop-All P (suc n) (x ∷ xs) (_, a) = drop-All P n xs a

ids-take-drop : (n : ℕ) (xs : List Selected) → ids (take n xs) ++ ids (drop n xs) ≡ ids xs
ids-take-drop zero xs = refl
ids-take-drop (suc n) [] = refl
ids-take-drop (suc n) (x ∷ xs) = ap (λ l. x.rule.id ∷ l) (ids-take-drop n xs)

-- No rule is on the page yet.
abbrev IsBare : RulePage → Type 0
IsBare page = (page.rules ≡ []) × (page.oversized ≡ [])

add_diagnostics-IsBare :
    {V : Type 0} (too_large : RulePage → Bool) (with_list : RulePage → List V → RulePage)
    → ((p : RulePage) (l : List V) → IsBare p → IsBare (with_list p l))
    → (page : RulePage) (listed vs : List V) → IsBare page
    → IsBare (add_diagnostics too_large with_list page listed vs)
unfolding add_diagnostics
add_diagnostics-IsBare large with_list keeps page listed [] b = keeps page listed b
add_diagnostics-IsBare large with_list keeps page listed (v ∷ vs) b =
    let rest = add_diagnostics-IsBare large with_list keeps page (listed ++ (v ∷ [])) vs b in
    elim (Bool-cases (large (with_list page (listed ++ (v ∷ []))))) [
      | inl e ↦ rw e (keeps page listed b)
      | inr e ↦ rw e rest
    ]

module _ (size : RulePage → ℕ) (catalog : Bool) (budget : ℕ) (revision : String) (d : Diagnostics)
    (selected : List Selected) where
  diagnose-IsBare : (page : RulePage) → IsBare page → IsBare (diagnose size catalog budget d page)
  unfolding diagnose
  diagnose-IsBare page b =
      add_diagnostics-IsBare _ _ (λ p l k. k) _ [] d.not_applicable
        (add_diagnostics-IsBare _ _ (λ p l k. k) _ [] d.invalid
          (add_diagnostics-IsBare _ _ (λ p l k. k) page [] d.conflicts b))

  -- The page from `offset` on.
  abbrev page_at : ℕ → RulePage
  page_at offset = rule_page size catalog budget revision d selected offset

  -- The rules that a reader sees who asks for at most `fuel` pages, from `offset` on, until a page
  -- has no cursor.
  unfoldable pub read_pages : ℕ → ℕ → Option (List String)
  read_pages zero offset = none
  read_pages (suc fuel) offset = elim (page_at offset).next_cursor [
    | none ↦ some (reported (page_at offset))
    | some next ↦ map_option (λ l. reported (page_at offset) ++ l) (read_pages fuel next)
  ]

  -- One page: the rules from its offset to its cursor, at least one if there is one.
  record PageFrom (offset : ℕ) : Type 0 where
    pub count : ℕ
    pub at_most : offset + count ≤ length selected
    pub sees : reported (page_at offset) ≡ ids (take count (drop offset selected))
    pub cursor :
        (page_at offset).next_cursor
        ≡ (if ltb (offset + count) (length selected) then some (offset + count) else none)
    pub moves : offset < length selected → 1 ≤ count

  page_from : (offset : ℕ) → All OneId selected → offset ≤ length selected → PageFrom offset
  unfolding rule_page finish_page
  page_from offset one within =
      let start = empty_page revision (length selected) in
      let bare = diagnose-IsBare start (refl, refl) in
      let first = diagnose size catalog budget d start in
      let served =
        serve-Served size catalog budget first offset (drop offset selected)
          (drop-All OneId offset selected one) bare.1 in
      let in_range : ltb (length selected) offset ≡ false = ground arith in
      record {
        count = served.count;
        at_most = omega (arith, served.at_most, length-drop offset selected);
        sees = rw in_range (served.all_reported ∙ rw bare.0 refl);
        cursor = rw (in_range, served.ends) refl;
        moves = λ more.
            served.moves bare.0 λ e. ground (arith, length-drop offset selected, ap length e);
      }

  pub read_pages_from :
      (fuel offset : ℕ)
      → All OneId selected
      → offset ≤ length selected
      → length selected < fuel + offset
      → read_pages fuel offset ≡ some (ids (drop offset selected))
  unfolding read_pages
  read_pages_from zero offset one within enough = absurd (omega arith)
  read_pages_from (suc fuel) offset one within enough =
      let page = page_from offset one within in
      let here = drop offset selected in
      let split =
        ap (λ l. ids (take page.count here) ++ ids l)
          (sym (drop-drop offset page.count (offset + page.count) selected refl))
        ∙ ids-take-drop page.count here in
      elim (Bool-cases (ltb (offset + page.count) (length selected))) [
        | inl e ↦
            let next =
              read_pages_from fuel (offset + page.count) one (ground arith)
                (ground (arith, page.moves)) in
            rw (read_pages, page.cursor, e, next, page.sees) (ap some split)
        | inr e ↦
            let at_end = drop_all (offset + page.count) selected (ground arith) in
            rw (read_pages, page.cursor, e, page.sees)
              (ap some (
                sym (append_nil (ids (take page.count here)))
                ∙ ap (λ l. ids (take page.count here) ++ ids l) (sym at_end)
                ∙ split))
      ]

-- A reader who starts with the first page and follows the cursors, for as many pages as there are
-- selected rules and one more, comes to a page without a cursor, and has then seen the id of every
-- selected rule once, in order, as a served rule or as one that is reported too large, if each rule
-- has the id of its catalog entry; whatever the sizes, the budget and the diagnostics are.
pub read_pages_complete :
    (size : RulePage → ℕ) (catalog : Bool) (budget : ℕ) (revision : String) (d : Diagnostics)
    (selected : List Selected)
    → All OneId selected
    → read_pages size catalog budget revision d selected (suc (length selected)) 0
      ≡ some (ids selected)
read_pages_complete size catalog budget revision d selected one =
    read_pages_from size catalog budget revision d selected (suc (length selected)) 0 one
      (omega arith) (omega arith)
