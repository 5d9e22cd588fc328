-- ===== src/Memory/Promotion/Replay.antt =====
-- What is decided of a memory version is on record: it is neither applied nor decided again.
use code_butler.Prelude.{
  String, true, false, Option, none, some, List, ◌≡◌, refl, ◌∙◌, arith, Bool-cases, inl, inr,
  find?-upsert, eq_refl, upserted, find?, Option-cases,
}
use code_butler.Exec.{ok, Exec, pure, ◌>>◌, modify, rolled_back}
use code_butler.Exec.Rules.{Leaves}
use code_butler.Exec.Post.{Ends, Ends-bind, Ends-pure, Ends-Leaves, Ends-transaction}
use code_butler.Memory.Retention.{Category, candidate, promoted, category_eq}
use code_butler.Memory.Promotion.{
  Verdict, promote, converge, defer, skip, verdict_eq, PromotionPolicy, PromotionDecision,
  PromotionDecisionRow, PlanItem, find_decision, promotion_policy_version,
}
use code_butler.Memory.Promotion.Tables.{PromotionTables, Judge}
use code_butler.Memory.Promotion.Decide.{decide}
use code_butler.Memory.Promotion.Apply.{
  PromotionDb, PromotionStore, ApplyResult, in_store, is_core_skip, unapplied, d_key, decision_row,
  refreshed, upsert_decision, carry_out, core_id, record_decision, on_record, applied_as,
  apply_once, apply_automatic_promotion,
}

category_eq_refl : (c : Category) → category_eq c c ≡ true
category_eq_refl candidate = refl
category_eq_refl promoted = refl

verdict_eq_refl : (v : Verdict) → verdict_eq v v ≡ true
verdict_eq_refl promote = refl
verdict_eq_refl converge = refl
verdict_eq_refl defer = refl
verdict_eq_refl skip = refl

pub verdict_eq-eq : (v w : Verdict) → verdict_eq v w ≡ true → v ≡ w
verdict_eq-eq promote promote h = refl
verdict_eq-eq promote converge h = cc
verdict_eq-eq promote defer h = cc
verdict_eq-eq promote skip h = cc
verdict_eq-eq converge promote h = cc
verdict_eq-eq converge converge h = refl
verdict_eq-eq converge defer h = cc
verdict_eq-eq converge skip h = cc
verdict_eq-eq defer promote h = cc
verdict_eq-eq defer converge h = cc
verdict_eq-eq defer defer h = refl
verdict_eq-eq defer skip h = cc
verdict_eq-eq skip promote h = cc
verdict_eq-eq skip converge h = cc
verdict_eq-eq skip defer h = cc
verdict_eq-eq skip skip h = refl

abbrev recorded : PromotionDecision → List PromotionDecisionRow → Option PromotionDecisionRow
recorded d rows =
    find_decision rows d.memory_id d.category d.memory_version promotion_policy_version

abbrev OnRecord : PromotionDecision → List PromotionDecisionRow → Type 0
OnRecord d rows = on_record d (recorded d rows) ≡ true

decision_row-d_key :
    (fresh decided_at actor : String) (d : PromotionDecision) (p : Option String)
    → d_key d (decision_row fresh decided_at actor d p) ≡ true
decision_row-d_key fresh decided_at actor d p =
    let a = eq_refl d.memory_id in
    let b = eq_refl d.memory_version in let c = category_eq_refl d.category in ground arith

upserted-OnRecord :
    (fresh decided_at actor : String) (d : PromotionDecision) (p : Option String)
    (old : Option PromotionDecisionRow)
    → on_record d (
        some (
          upserted
            (d_key d)
            (refreshed (decision_row fresh decided_at actor d p))
            (decision_row fresh decided_at actor d p)
            old))
      ≡ true
upserted-OnRecord fresh decided_at actor d p none = verdict_eq_refl d.decision
upserted-OnRecord fresh decided_at actor d p (some old) = verdict_eq_refl d.decision

decide_recorded :
    (judge : Judge) (policy : PromotionPolicy) (tables : PromotionTables) (item : PlanItem)
    (row : PromotionDecisionRow)
    → find_decision tables.decisions item.memory.id item.category item.memory_version
        promotion_policy_version
      ≡ some row
    → (decide judge policy tables item).decision ≡ row.decision
unfolding decide
decide_recorded judge policy tables item row e = rw (decide, e) refl

module _ {W : Type 0} (store : PromotionStore W) where
  module _ (fresh decided_at actor : String) where
    upsert_decision-OnRecord :
        (d : PromotionDecision) (p : Option String) (db : PromotionDb W)
        → OnRecord d (upsert_decision d (decision_row fresh decided_at actor d p) db).decisions
    unfolding upsert_decision find_decision
    upsert_decision-OnRecord d p db =
        let row = decision_row fresh decided_at actor d p in
        rw
          (find?-upsert (d_key d) (refreshed row) row db.decisions
            (decision_row-d_key fresh decided_at actor d p) (λ x h. h))
          (upserted-OnRecord fresh decided_at actor d p (find? (d_key d) db.decisions))

    in_store-Leaves : {A : Type 0} (m : Exec W A) → Leaves (λ db. db.decisions) (in_store m)
    unfolding in_store
    in_store-Leaves m = record { at = λ db. refl }

    record_decision-OnRecord :
        (d : PromotionDecision)
        → Ends
            (λ db. Unit {0})
            (λ r db. OnRecord d db.decisions)
            (record_decision store fresh decided_at actor d)
    unfolding record_decision
    record_decision-OnRecord d =
        Ends-bind (λ p db. Unit {0}) (in_store (carry_out store d))
          (λ p.
            modify (upsert_decision d (decision_row fresh decided_at actor d p))
            >> (in_store (store.record_completed_operation d (core_id d p))
                >> pure (applied_as d p)))
          (record { at = λ db u p h. tt })
          (λ p.
            Ends-bind (λ u db. OnRecord d db.decisions)
              (modify (upsert_decision d (decision_row fresh decided_at actor d p)))
              (λ u.
                in_store (store.record_completed_operation d (core_id d p))
                >> pure (applied_as d p))
              (record { at = λ db u v h. upsert_decision-OnRecord d p db })
              (λ u.
                Ends-bind (λ v db. OnRecord d db.decisions)
                  (in_store (store.record_completed_operation d (core_id d p)))
                  (λ v. pure (applied_as d p))
                  (Ends-Leaves (OnRecord d)
                    (in_store (store.record_completed_operation d (core_id d p)))
                    (in_store-Leaves (store.record_completed_operation d (core_id d p))))
                  (λ v. Ends-pure (applied_as d p) (λ db h. h))))

    core_skip-unapplied :
        (d : PromotionDecision) (db : PromotionDb W)
        → is_core_skip d ≡ true
        → apply_automatic_promotion store fresh decided_at actor d db ≡ (ok (unapplied d), db)
    unfolding apply_automatic_promotion
    core_skip-unapplied d db c = rw c refl

    apply_shared :
        (d : PromotionDecision) (db : PromotionDb W)
        → is_core_skip d ≡ false
        → apply_automatic_promotion store fresh decided_at actor d db
          ≡ rolled_back db (apply_once store fresh decided_at actor d db)
    unfolding apply_automatic_promotion
    apply_shared d db shared = rw shared refl

    apply_once-OnRecord :
        (d : PromotionDecision)
        → Ends
            (λ db. Unit {0})
            (λ r db. OnRecord d db.decisions)
            (apply_once store fresh decided_at actor d)
    apply_once-OnRecord d = record {
      at = λ db u r h. elim (Bool-cases (on_record d (recorded d db.decisions))) [
        | inl e ↦ rw e e
        | inr e ↦ let h' = rw e at h in rw e ((record_decision-OnRecord d).at db tt r h')
      ];
    }

    -- After an apply that returned, of a decision that is recorded, the verdict is on record.
    apply-OnRecord :
        (d : PromotionDecision) (db : PromotionDb W) (r : ApplyResult)
        → is_core_skip d ≡ false
        → (apply_automatic_promotion store fresh decided_at actor d db).0 ≡ ok r
        → OnRecord d (apply_automatic_promotion store fresh decided_at actor d db).1.decisions
    apply-OnRecord d db r shared h =
        let e = apply_shared d db shared in
        let h' = rw e at h in
        rw e (
          (Ends-transaction (apply_once store fresh decided_at actor d) (apply_once-OnRecord d)).at
            db tt r h')

    OnRecord-unapplied :
        (d : PromotionDecision) (db : PromotionDb W)
        → OnRecord d db.decisions
        → apply_automatic_promotion store fresh decided_at actor d db ≡ (ok (unapplied d), db)
    unfolding apply_automatic_promotion
    OnRecord-unapplied d db e = elim (Bool-cases (is_core_skip d)) [
      | inl c ↦ rw c refl
      | inr c ↦ rw (c, e) refl
    ]

  -- After a decision was applied without an error, applying it again, at any time and by anyone,
  -- returns that nothing was applied and leaves the database as it is.
  pub apply_automatic_promotion-unapplied :
      (fresh fresh' decided_at decided_at' actor actor' : String) (d : PromotionDecision)
      (db : PromotionDb W) (r : ApplyResult)
      → (apply_automatic_promotion store fresh decided_at actor d db).0 ≡ ok r
      → apply_automatic_promotion store fresh' decided_at' actor' d
          (apply_automatic_promotion store fresh decided_at actor d db).1
        ≡ (ok (unapplied d), (apply_automatic_promotion store fresh decided_at actor d db).1)
  apply_automatic_promotion-unapplied fresh fresh' decided_at decided_at' actor actor' d db r h =
      let after = (apply_automatic_promotion store fresh decided_at actor d db).1 in
      elim (Bool-cases (is_core_skip d)) [
        | inl c ↦ core_skip-unapplied fresh' decided_at' actor' d after c
        | inr c ↦
            OnRecord-unapplied fresh' decided_at' actor' d after
              (apply-OnRecord fresh decided_at actor d db r c h)
      ]

  -- After a decision was applied without an error, and it is not the skip of a core candidate, the
  -- plan decides the same for every item with its memory, category and version.
  pub apply_automatic_promotion-decide :
      (fresh decided_at actor : String) (d : PromotionDecision) (db : PromotionDb W)
      (r : ApplyResult) (judge : Judge) (policy : PromotionPolicy) (tables : PromotionTables)
      (item : PlanItem)
      → is_core_skip d ≡ false
      → (apply_automatic_promotion store fresh decided_at actor d db).0 ≡ ok r
      → tables.decisions ≡ (apply_automatic_promotion store fresh decided_at actor d db).1.decisions
      → item.memory.id ≡ d.memory_id
      → item.category ≡ d.category
      → item.memory_version ≡ d.memory_version
      → (decide judge policy tables item).decision ≡ d.decision
  apply_automatic_promotion-decide fresh decided_at actor d db r judge policy tables item shared h
        same a b c =
      let on = apply-OnRecord fresh decided_at actor d db r shared h in
      let on' = rw (← same) at on in
      elim (Option-cases (recorded d tables.decisions)) [
        | inl e ↦ let bad = rw e at on' in cc
        | inr (row, e) ↦
            let on'' = rw e at on' in
            let e' : find_decision tables.decisions item.memory.id item.category item.memory_version
                  promotion_policy_version
                ≡ some row =
              cc in
            decide_recorded judge policy tables item row e'
            ∙ verdict_eq-eq row.decision d.decision on''
      ]
