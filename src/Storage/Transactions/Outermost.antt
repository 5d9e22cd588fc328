-- ===== src/Storage/Transactions/Outermost.antt =====
-- The outermost transaction, and the work that waits for its commit.
use code_butler.Prelude.{
  ℕ, String, Bool, true, false, ◌&&◌, none, some, [], ◌∷◌, ◌++◌, ◌≡◌, refl, ap, ◌∙◌, Bool-cases,
  inl, inr,
}
use mathlib.Core.List.{append-nil}
use code_butler.Storage.Transactions.Connection.{Sqlite}
use code_butler.Storage.Transactions.Promise.{Program, Promised, promise, settled}
use code_butler.Storage.Transactions.{
  World, Work, run, rolled_back_all, with_transaction, own_transaction, transaction_ended,
}
use code_butler.Storage.Transactions.Refines.{After, run-After, scoped, now, chosen, other}

module _ {D K : Type 0} (sqlite : Sqlite D) (random_uuid : ℕ → String) where
  abbrev pub begin_own : World K sqlite.Conn → World K sqlite.Conn
  begin_own w = record w {
    conn = sqlite.begin w.conn;
    context = scoped sqlite random_uuid ([] ∷ []);
  }

  -- From `w`, outside every transaction, `x` is what `r` promises, and its callbacks have run.
  pub record Settled (w : World K sqlite.Conn) (r : Promised D K) (x : Bool × World K sqlite.Conn)
      : Type 0 where
    pub returned : x.0 ≡ r.returned
    pub conn : sqlite.view x.1.conn ≡ record { data_now = r.data_now; base = none; savepoints = [] }
    pub context : x.1.context ≡ none
    pub ran : x.1.ran ≡ w.ran ++ r.callbacks

  abbrev undone : D → Promised D K
  undone d = record { returned = false; data_now = d; callbacks = [] }

  begun_base :
      (w : World K sqlite.Conn)
      → (sqlite.view w.conn).base ≡ none
      → sqlite.view (begin_own w).conn ≡ record {
        data_now = now sqlite random_uuid w;
        base = some (now sqlite random_uuid w);
        savepoints = [];
      }
  begun_base w none_begun = sqlite.view-begin w.conn none_begun

  -- ROLLBACK of the own transaction.
  rolled_back-Settled :
      (w : World K sqlite.Conn) (w' : World K sqlite.Conn)
      → (sqlite.view w'.conn).base ≡ some (now sqlite random_uuid w)
      → w'.ran ≡ w.ran
      → Settled w (undone (now sqlite random_uuid w)) (rolled_back_all sqlite random_uuid w')
  rolled_back-Settled w w' base ran =
      let e : sqlite.is_transaction w'.conn ≡ true =
        sqlite.view-is_transaction w'.conn ∙ rw base refl in
      record {
        returned = refl;
        conn = rw e (sqlite.view-rollback w'.conn (now sqlite random_uuid w) base);
        context = refl;
        ran = rw (append-nil w.ran) ran;
      }

  ended-Settled :
      (w : World K sqlite.Conn) (r : Promised D K) (x : Bool × World K sqlite.Conn)
      → (sqlite.view w.conn).base ≡ none
      → After sqlite random_uuid (begin_own w) [] [] r x
      → Settled w
          (settled (sqlite.commits x.1.conn) (now sqlite random_uuid w) r)
          (transaction_ended sqlite random_uuid x)
  ended-Settled w r (false, w') outside a =
      rw
        (other (r.returned && sqlite.commits w'.conn) r (undone (now sqlite random_uuid w))
          (rw (← a.returned) refl))
        (rolled_back-Settled w w'
          (ap (λ v. v.base) a.conn ∙ ap (λ v. v.base) (begun_base w outside)) a.ran)
  ended-Settled w r (true, w') outside a = elim (Bool-cases (sqlite.commits w'.conn)) [
    | inl c ↦
        rw
          (
            chosen (r.returned && sqlite.commits w'.conn) r (undone (now sqlite random_uuid w))
                (rw (← a.returned) c),
            transaction_ended,
            c,
          )
          (record {
            returned = a.returned;
            conn = sqlite.view-commit w'.conn c ∙ rw (a.conn) refl;
            context = refl;
            ran = rw (a.context, a.ran) refl;
          })
    | inr c ↦
        rw
          (
            other (r.returned && sqlite.commits w'.conn) r (undone (now sqlite random_uuid w))
                (rw (← a.returned) c),
            transaction_ended,
            c,
          )
          (rolled_back-Settled w (record w' { conn = sqlite.commit w'.conn })
            (ap (λ v. v.base) (sqlite.view-commit_failed w'.conn c)
              ∙ (ap (λ v. v.base) a.conn ∙ ap (λ v. v.base) (begun_base w outside)))
            a.ran)
  ]

  -- Outside every transaction, `with_transaction` keeps what the program has written and then runs
  -- the callbacks of the parts that did not throw, in the order in which they were scheduled,
  -- where the program returns and COMMIT succeeds. Where not, it throws, the data are those before
  -- it, and no callback runs. In both cases no transaction and no context is left.
  pub with_transaction-Settled :
      (p : Program D K) (w : World K sqlite.Conn)
      → w.context ≡ none
      → (sqlite.view w.conn).base ≡ none
      → Settled w
          (settled
            (sqlite.commits (run sqlite random_uuid p (begin_own w)).1.conn)
            (now sqlite random_uuid w)
            (promise p (now sqlite random_uuid w)))
          (with_transaction sqlite random_uuid (run sqlite random_uuid p) w)
  with_transaction-Settled p w context outside =
      let e = begun_base w outside in
      let a =
        run-After sqlite random_uuid p (begin_own w) [] [] (now sqlite random_uuid w) refl
          (ap (λ v. v.base) e) in
      let a' = rw (ap (λ v. v.data_now) e) at a in
      let done =
        ended-Settled w (promise p (now sqlite random_uuid w))
          (run sqlite random_uuid p (begin_own w)) outside a' in
      let i : sqlite.is_transaction w.conn ≡ false =
        sqlite.view-is_transaction w.conn ∙ rw outside refl in
      rw (alone (run sqlite random_uuid p) w context i) done
    where
      alone :
          (work : Work K sqlite.Conn) (w : World K sqlite.Conn)
          → w.context ≡ none
          → sqlite.is_transaction w.conn ≡ false
          → with_transaction sqlite random_uuid work w ≡ own_transaction sqlite random_uuid work w
      alone work w context i = rw (context, i) refl
