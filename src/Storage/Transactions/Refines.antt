-- ===== src/Storage/Transactions/Refines.antt =====
-- The transactions do what their callers expect.
use code_butler.Prelude.{
  ℕ, suc, String, Bool, true, false, Option, some, List, [], ◌∷◌, ◌++◌, ◌≡◌, refl, sym, ap, ◌∙◌,
  if◌then◌else◌, eq_refl, arith,
}
use mathlib.Core.List.{append-nil, append_assoc}
use code_butler.Storage.Transactions.Connection.{Sqlite, Snapshot, released_from, rolled_to}
use code_butler.Storage.Transactions.Promise.{
  Program, done, throws, writes, schedules, transaction, attempt, Promised, promise,
  after_callbacks, all_or_nothing, followed_by,
}
use code_butler.Storage.Transactions.{
  Context, World, Work, run, savepoint_ended, with_savepoint, with_transaction, then_run,
  if_returned, in_scopes,
}

module _ {D : Type 0} where
  -- The savepoint that the code set is the innermost one when its work has ended.
  released_own :
      (name : String) (d : D) (rest : List (String × D))
      → released_from name ((name, d) ∷ rest) ≡ rest
  released_own name d rest = let e = eq_refl name in ground arith

  rolled_to_own :
      (name : String) (d now : D) (rest all : List (String × D)) (s : Snapshot D)
      → rolled_to name now all ((name, d) ∷ rest) s
        ≡ record { data_now = d; base = s.base; savepoints = (name, d) ∷ rest }
  rolled_to_own name d now rest all s = let e = eq_refl name in rw e refl

module _ {A : Type 0} where
  pub chosen : (b : Bool) (x y : A) → b ≡ true → (if b then x else y) ≡ x
  chosen b x y h = rw h refl

  pub other : (b : Bool) (x y : A) → b ≡ false → (if b then x else y) ≡ y
  other b x y h = rw h refl

module _ {D K : Type 0} (sqlite : Sqlite D) (random_uuid : ℕ → String) where
  abbrev pub scoped : List (List K) → Option (Context K)
  scoped scopes = some (record { owns_outermost = true; scopes = scopes })

  abbrev pub now : World K sqlite.Conn → D
  now w = (sqlite.view w.conn).data_now

  -- From `w`, in an own transaction with `s` as the innermost scope, `x` is what `r` promises.
  pub record After (w : World K sqlite.Conn) (s : List K) (ss : List (List K)) (r : Promised D K)
      (x : Bool × World K sqlite.Conn) : Type 0 where
    pub returned : x.0 ≡ r.returned
    pub conn : sqlite.view x.1.conn ≡ record (sqlite.view w.conn) { data_now = r.data_now }
    pub context : x.1.context ≡ scoped ((s ++ r.callbacks) ∷ ss)
    pub ran : x.1.ran ≡ w.ran

  After-chain :
      (w : World K sqlite.Conn) (s : List K) (ss : List (List K)) (r r' : Promised D K)
      (x y : Bool × World K sqlite.Conn)
      → After w s ss r x
      → After x.1 (s ++ r.callbacks) ss r' y
      → After w s ss (after_callbacks r.callbacks r') y
  After-chain w s ss r r' x y a b = record {
    returned = b.returned;
    conn = b.conn ∙ rw a.conn refl;
    context = b.context ∙ rw (append_assoc) refl;
    ran = b.ran ∙ a.ran;
  }

  abbrev saved : World K sqlite.Conn → World K sqlite.Conn
  saved w = record w {
    conn = sqlite.savepoint (random_uuid w.drawn) w.conn;
    context = in_scopes (λ ss. [] ∷ ss) w.context;
    drawn = suc w.drawn;
  }

  abbrev undone : Promised D K → D → Promised D K
  undone r d = record { returned = false; data_now = d; callbacks = [] }

  released-After :
      (w : World K sqlite.Conn) (s : List K) (ss : List (List K)) (r : Promised D K)
      (w' : World K sqlite.Conn)
      → r.returned ≡ true
      → After (saved w) [] (s ∷ ss) r (true, w')
      → After w s ss r (savepoint_ended sqlite random_uuid (random_uuid w.drawn) (true, w'))
  released-After w s ss r w' returned a = record {
    returned = sym returned;
    conn =
        sqlite.view-release (random_uuid w.drawn) w'.conn
        ∙ rw
            (
              a.conn,
              sqlite.view-savepoint (random_uuid w.drawn) w.conn,
              released_own (random_uuid w.drawn) (now w) (sqlite.view w.conn).savepoints,
            )
            refl;
    context = rw (a.context) refl;
    ran = a.ran;
  }

  rolled_back-After :
      (w : World K sqlite.Conn) (s : List K) (ss : List (List K)) (r : Promised D K)
      (w' : World K sqlite.Conn) (b : D)
      → (sqlite.view w.conn).base ≡ some b
      → After (saved w) [] (s ∷ ss) r (false, w')
      → After w s ss
          (undone r (now w))
          (savepoint_ended sqlite random_uuid (random_uuid w.drawn) (false, w'))
  rolled_back-After w s ss r w' b begun a = record {
    returned = refl;
    conn =
        let e : sqlite.is_transaction w'.conn ≡ true =
          sqlite.view-is_transaction w'.conn
          ∙ rw (a.conn, sqlite.view-savepoint (random_uuid w.drawn) w.conn, begun) refl in
        rw (e) (
          sqlite.view-release (random_uuid w.drawn)
            (sqlite.rollback_to (random_uuid w.drawn) w'.conn)
          ∙ rw
              (
                sqlite.view-rollback_to (random_uuid w.drawn) w'.conn,
                a.conn,
                sqlite.view-savepoint (random_uuid w.drawn) w.conn,
                rolled_to_own (random_uuid w.drawn) (now w) r.data_now
                    (sqlite.view w.conn).savepoints
                    ((random_uuid w.drawn, now w) ∷ (sqlite.view w.conn).savepoints)
                    (record {
                      data_now = r.data_now;
                      base = (sqlite.view w.conn).base;
                      savepoints = (random_uuid w.drawn, now w) ∷ (sqlite.view w.conn).savepoints;
                    }),
                released_own (random_uuid w.drawn) (now w) (sqlite.view w.conn).savepoints,
              )
              refl);
    context = rw (a.context, append-nil s) refl;
    ran = a.ran;
  }

  savepoint_ended-After :
      (w : World K sqlite.Conn) (s : List K) (ss : List (List K)) (r : Promised D K)
      (x : Bool × World K sqlite.Conn) (b : D)
      → (sqlite.view w.conn).base ≡ some b
      → After (saved w) [] (s ∷ ss) r x
      → After w s ss
          (all_or_nothing (now w) r)
          (savepoint_ended sqlite random_uuid (random_uuid w.drawn) x)
  savepoint_ended-After w s ss r (true, w') b begun a =
      rw (chosen r.returned r (undone r (now w)) (sym a.returned))
        (released-After w s ss r w' (sym a.returned) a)
  savepoint_ended-After w s ss r (false, w') b begun a =
      rw (other r.returned r (undone r (now w)) (sym a.returned))
        (rolled_back-After w s ss r w' b begun a)

  nested :
      (work : Work K sqlite.Conn) (w : World K sqlite.Conn) (c : Context K)
      → w.context ≡ some c
      → with_transaction sqlite random_uuid work w ≡ with_savepoint sqlite random_uuid work w
  nested work w c context = rw context refl

  -- What holds of the rest of a program, from every state of the transaction.
  abbrev pub Keeps : Program D K → Type 0
  Keeps p =
      (w : World K sqlite.Conn) (s : List K) (ss : List (List K)) (b : D)
      → w.context ≡ scoped (s ∷ ss)
      → (sqlite.view w.conn).base ≡ some b
      → After w s ss (promise p (now w)) (run sqlite random_uuid p w)

  then-After :
      (p : Program D K) (w : World K sqlite.Conn) (s : List K) (ss : List (List K)) (b : D)
      (r : Promised D K) (x : Bool × World K sqlite.Conn)
      → Keeps p
      → (sqlite.view w.conn).base ≡ some b
      → After w s ss r x
      → After w s ss
          (after_callbacks r.callbacks (promise p r.data_now))
          (run sqlite random_uuid p x.1)
  then-After p w s ss b r x keeps begun a =
      After-chain w s ss r (promise p r.data_now) x (run sqlite random_uuid p x.1) a (
        rw (← ap (λ v. v.data_now) a.conn)
          (keeps x.1 (s ++ r.callbacks) ss b a.context (ap (λ v. v.base) a.conn ∙ begun)))

  if_returned-After :
      (p : Program D K) (w : World K sqlite.Conn) (s : List K) (ss : List (List K)) (b : D)
      (r : Promised D K) (x : Bool × World K sqlite.Conn)
      → Keeps p
      → (sqlite.view w.conn).base ≡ some b
      → After w s ss r x
      → After w s ss (followed_by r (promise p)) (
          then_run sqlite random_uuid (if_returned sqlite random_uuid (run sqlite random_uuid p)) x)
  if_returned-After p w s ss b r (true, w') keeps begun a =
      rw (chosen r.returned (after_callbacks r.callbacks (promise p r.data_now)) r (sym a.returned))
        (then-After p w s ss b r (true, w') keeps begun a)
  if_returned-After p w s ss b r (false, w') keeps begun a =
      rw (other r.returned (after_callbacks r.callbacks (promise p r.data_now)) r (sym a.returned))
        a

  changed-After :
      (p : Program D K) (w w' : World K sqlite.Conn) (s : List K) (ss : List (List K)) (d : D)
      (x : Bool × World K sqlite.Conn)
      → sqlite.view w'.conn ≡ record (sqlite.view w.conn) { data_now = d }
      → w'.ran ≡ w.ran
      → After w' s ss (promise p (now w')) x
      → After w s ss (promise p d) x
  changed-After p w w' s ss d x e same a =
      let a' = rw (ap (λ v. v.data_now) e) at a in
      record {
        returned = a'.returned;
        conn = a'.conn ∙ rw e refl;
        context = a'.context;
        ran = a'.ran ∙ same;
      }

  pub run-After : (p : Program D K) → Keeps p
  unfolding run promise
  run-After done w s ss b context begun = record {
    returned = refl;
    conn = refl;
    context = context ∙ rw (append-nil s) refl;
    ran = refl;
  }
  run-After throws w s ss b context begun = record {
    returned = refl;
    conn = refl;
    context = context ∙ rw (append-nil s) refl;
    ran = refl;
  }
  run-After (writes f p) w s ss b context begun =
      let w' = record w { conn = sqlite.change f w.conn } in
      let e = sqlite.view-change f w.conn in
      changed-After p w w' s ss (f (now w)) (run sqlite random_uuid p w') e refl
        (run-After p w' s ss b context (ap (λ v. v.base) e ∙ begun))
  run-After (schedules k p) w s ss b context begun =
      let w' = record w { context = scoped ((s ++ k ∷ []) ∷ ss) } in
      let a = run-After p w' (s ++ k ∷ []) ss b refl begun in
      rw (context) (record {
        returned = a.returned;
        conn = a.conn;
        context = a.context ∙ rw (append_assoc) refl;
        ran = a.ran;
      })
  run-After (transaction q p) w s ss b context begun =
      let e = sqlite.view-savepoint (random_uuid w.drawn) w.conn in
      let a = run-After q (saved w) [] (s ∷ ss) b (rw context refl) (ap (λ v. v.base) e ∙ begun) in
      let a' = rw (ap (λ v. v.data_now) e) at a in
      if_returned-After p w s ss b (all_or_nothing (now w) (promise q (now w)))
        (with_transaction sqlite random_uuid (run sqlite random_uuid q) w) (run-After p) begun
        (rw
          (nested (run sqlite random_uuid q) w (record { owns_outermost = true; scopes = s ∷ ss })
            context)
          (savepoint_ended-After w s ss (promise q (now w)) (run sqlite random_uuid q (saved w)) b
            begun a'))
  run-After (attempt q p) w s ss b context begun =
      then-After p w s ss b (promise q (now w)) (run sqlite random_uuid q w) (run-After p) begun
        (run-After q w s ss b context begun)
