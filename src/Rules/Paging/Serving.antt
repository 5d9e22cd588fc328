-- ===== src/Rules/Paging/Serving.antt =====
-- rules/match.ts, `getApplicableRules`: what one page serves.
use code_butler.Prelude.{
  ℕ, suc, ◌+◌, ◌≤◌, String, Bool, ◌&&◌, List, [], ◌∷◌, ◌++◌, map, length, nat_eq, arith, ◌≡◌, ◌≢◌,
  refl, ap, ◌∙◌, Bool-cases, inl, inr, take, All,
}
use code_butler.Rules.Paging.{
  PageEntry, whole, summary, Selected, RulePage, drop_last, popped, entry_of, push_entry, shorten,
  over, make_room, take_off, serve, page_bytes,
}

abbrev pub entry_id : PageEntry → String
entry_id (whole rule) = rule.id
entry_id (summary entry) = entry.id

abbrev pub entry_ids : List PageEntry → List String
entry_ids [] = []
entry_ids (e ∷ es) = entry_id e ∷ entry_ids es

abbrev pub ids : List Selected → List String
ids [] = []
ids (s ∷ ss) = s.rule.id ∷ ids ss

-- The rules that the page has or reports.
abbrev pub reported : RulePage → List String
reported page = entry_ids page.rules ++ page.oversized

-- A rule and its entry in the catalog have one id.
abbrev pub OneId : Selected → Type 0
OneId s = s.entry.id ≡ s.rule.id

drop_last-append : {A : Type 0} (xs : List A) (x : A) → drop_last (xs ++ (x ∷ [])) ≡ xs
drop_last-append [] x = refl
drop_last-append (y ∷ []) x = refl
drop_last-append (y ∷ z ∷ ys) x = ap (λ l. y ∷ l) (drop_last-append (z ∷ ys) x)

entry_ids-append : (es fs : List PageEntry) → entry_ids (es ++ fs) ≡ entry_ids es ++ entry_ids fs
entry_ids-append [] fs = refl
entry_ids-append (e ∷ es) fs = ap (λ l. entry_id e ∷ l) (entry_ids-append es fs)

entry_ids-drop_last : (es : List PageEntry) → entry_ids (drop_last es) ≡ drop_last (entry_ids es)
entry_ids-drop_last [] = refl
entry_ids-drop_last (e ∷ []) = refl
entry_ids-drop_last (e ∷ f ∷ es) = ap (λ l. entry_id e ∷ l) (entry_ids-drop_last (f ∷ es))

pub append_nil : (xs : List String) → xs ++ [] ≡ xs
append_nil [] = refl
append_nil (x ∷ xs) = ap (λ l. x ∷ l) (append_nil xs)

append_assoc : (xs ys zs : List String) → (xs ++ ys) ++ zs ≡ xs ++ (ys ++ zs)
append_assoc [] ys zs = refl
append_assoc (x ∷ xs) ys zs = ap (λ l. x ∷ l) (append_assoc xs ys zs)

-- From `page`, the loop over `rest` from `index` on has served the first `count` rules.
pub record Served (page : RulePage) (index : ℕ) (rest : List Selected) (p : RulePage) (j : ℕ)
    : Type 0 where
  pub count : ℕ
  pub at_most : count ≤ length rest
  pub ends : j ≡ index + count
  pub all_reported : reported p ≡ entry_ids page.rules ++ ids (take count rest)
  pub moves : page.rules ≡ [] → rest ≢ [] → 1 ≤ count

module _ (size : RulePage → ℕ) (catalog : Bool) (budget : ℕ) where
  entry_ids-shorten :
      (es : List PageEntry) → entry_ids (map (shorten size catalog budget) es) ≡ entry_ids es
  entry_ids-shorten [] = refl
  entry_ids-shorten (whole rule ∷ es) = ap (λ l. rule.id ∷ l) (entry_ids-shorten es)
  entry_ids-shorten (summary entry ∷ es) = ap (λ l. entry.id ∷ l) (entry_ids-shorten es)

  make_room-ids :
      (page : RulePage)
      → (entry_ids (make_room size catalog budget page).rules ≡ entry_ids page.rules)
        × ((make_room size catalog budget page).oversized ≡ page.oversized)
  unfolding make_room
  make_room-ids page =
      elim (Bool-cases (
        over size catalog budget page
        && nat_eq (length page.rules) 1
        && nat_eq budget page_bytes)) [
          | inl e ↦ rw e (entry_ids-shorten page.rules, refl)
          | inr e ↦ rw e (refl, refl)
        ]

  abbrev tried : RulePage → ℕ → Selected → List Selected → RulePage
  tried page index s rest =
      make_room size catalog budget (push_entry size catalog budget page index s rest)

  tried-ids :
      (page : RulePage) (index : ℕ) (s : Selected) (rest : List Selected)
      → OneId s
      → entry_ids (tried page index s rest).rules ≡ entry_ids page.rules ++ (s.rule.id ∷ [])
  unfolding push_entry
  tried-ids page index s rest one =
      (make_room-ids (push_entry size catalog budget page index s rest)).0
      ∙ entry_ids-append page.rules (entry_of size catalog budget s ∷ [])
      ∙ ap (λ i. entry_ids page.rules ++ (i ∷ []))
          (elim (Bool-cases catalog) [
            | inl c ↦ rw (entry_of, c) one
            | inr c ↦ rw (entry_of, c) refl
          ])

  tried-oversized :
      (page : RulePage) (index : ℕ) (s : Selected) (rest : List Selected)
      → (tried page index s rest).oversized ≡ page.oversized
  unfolding push_entry
  tried-oversized page index s rest =
      (make_room-ids (push_entry size catalog budget page index s rest)).1

  popped-Served :
      (page full : RulePage) (index : ℕ) (s : Selected) (rest : List Selected) (es : List PageEntry)
      → entry_ids es ≡ entry_ids page.rules
      → full.oversized ≡ []
      → let r = popped size catalog budget full index s es in Served page index (s ∷ rest) r.0 r.1
  popped-Served page full index s rest [] same none_over = record {
    count = 1;
    at_most = omega arith;
    ends = refl;
    all_reported = rw (← same, none_over) refl;
    moves = λ _ _. omega arith;
  }
  popped-Served page full index s rest (e ∷ es) same none_over = record {
    count = 0;
    at_most = omega arith;
    ends = omega arith;
    all_reported = rw none_over (ap (λ l. l ++ []) same);
    moves = λ empty _. absurd (ground (arith, same, ap entry_ids empty));
  }

  take_off-Served :
      (page full : RulePage) (index : ℕ) (s : Selected) (rest : List Selected)
      → entry_ids full.rules ≡ entry_ids page.rules ++ (s.rule.id ∷ [])
      → full.oversized ≡ []
      → let r = take_off size catalog budget full index s in Served page index (s ∷ rest) r.0 r.1
  take_off-Served page full index s rest is_full none_over =
      popped-Served page full index s rest (drop_last full.rules)
        (entry_ids-drop_last full.rules
          ∙ ap drop_last is_full
          ∙ drop_last-append (entry_ids page.rules) s.rule.id)
        none_over

  pub serve-Served :
      (page : RulePage) (index : ℕ) (rest : List Selected)
      → All OneId rest
      → page.oversized ≡ []
      → let r = serve size catalog budget page index rest in Served page index rest r.0 r.1
  unfolding serve
  serve-Served page index [] one none_over = record {
    count = 0;
    at_most = omega arith;
    ends = omega arith;
    all_reported = rw none_over refl;
    moves = λ _ n. absurd (n refl);
  }
  serve-Served page index (s ∷ rest) (o, one) none_over =
      let full = tried page index s rest in
      let full_ids = tried-ids page index s rest o in
      let full_none = tried-oversized page index s rest ∙ none_over in
      elim (Bool-cases (over size catalog budget full)) [
        | inl e ↦ rw (serve, e) (take_off-Served page full index s rest full_ids full_none)
        | inr e ↦
            let next = serve-Served full (index + 1) rest one full_none in
            rw (serve, e)
              (record {
                count = suc next.count;
                at_most = omega (arith, next.at_most);
                ends = omega (arith, next.ends);
                all_reported =
                    next.all_reported
                    ∙ ap (λ l. l ++ ids (take next.count rest)) full_ids
                    ∙ append_assoc (entry_ids page.rules) (s.rule.id ∷ [])
                        (ids (take next.count rest));
                moves = λ _ _. omega arith;
              })
      ]
