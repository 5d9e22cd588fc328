-- ===== src/Storage/Transactions.antt =====
-- storage/transactions.ts: nested transactions, and work that waits for the commit.
pub mod Connection
pub mod Promise
pub mod Refines
pub mod Outermost
mod Tests
use code_butler.Prelude.{
  ℕ, suc, String, Bool, true, false, not, Option, none, some, List, [], ◌∷◌, ◌++◌, is_some, ◌==◌,
  ◌≡◌, if◌then◌else◌,
}
use code_butler.Storage.Transactions.Connection.{Sqlite}
use code_butler.Storage.Transactions.Promise.{
  Program, done, throws, writes, schedules, transaction, attempt,
}

-- `TransactionContext`, with the innermost scope first.
pub record Context (K : Type 0) : Type 0 where
  pub owns_outermost : Bool
  pub scopes : List (List K)

-- The connection, its entry in `transactionContexts`, the callbacks that have run, and the number of
-- the names drawn.
pub record World (K Conn : Type 0) : Type 0 where
  pub conn : Conn
  pub context : Option (Context K)
  pub ran : List K
  pub drawn : ℕ

-- Whether it returns, and the state after it.
abbrev pub Work : Type 0 → Type 0 → Type 0
Work K Conn = World K Conn → Bool × World K Conn

module _ {K : Type 0} where
  abbrev pub push_callback : K → List (List K) → Option (List (List K))
  push_callback k [] = none
  push_callback k (s ∷ ss) = some ((s ++ k ∷ []) ∷ ss)

  -- `callbackScopes.pop()`, with the callbacks joined to the scope around it.
  abbrev pub joined : List (List K) → List (List K)
  joined (callbacks ∷ s ∷ ss) = (s ++ callbacks) ∷ ss
  joined (callbacks ∷ []) = []
  joined [] = []

  abbrev pub dropped : List (List K) → List (List K)
  dropped [] = []
  dropped (s ∷ ss) = ss

  abbrev pub in_scopes : (List (List K) → List (List K)) → Option (Context K) → Option (Context K)
  in_scopes f none = none
  in_scopes f (some c) = some (record c { scopes = f c.scopes })

  abbrev pub last_scope : List (List K) → List K
  last_scope [] = []
  last_scope (s ∷ []) = s
  last_scope (s ∷ s' ∷ ss) = last_scope (s' ∷ ss)

  abbrev pub outermost_callbacks : Option (Context K) → List K
  outermost_callbacks none = []
  outermost_callbacks (some c) = last_scope c.scopes

module _ {D K : Type 0} (sqlite : Sqlite D) (random_uuid : ℕ → String) where
  abbrev pub schedule_in : Context K → K → Work K sqlite.Conn
  schedule_in c k w = if not c.owns_outermost then (false, w) else elim (push_callback k c.scopes) [
    | none ↦ (false, w)
    | some scopes ↦ (true, record w { context = some (record c { scopes = scopes }) })
  ]

  -- `afterCommit`. What a callback throws is dropped, so that running one adds it to `ran`.
  abbrev pub after_commit : K → Work K sqlite.Conn
  after_commit k w = elim w.context [
    | none ↦
        if sqlite.is_transaction w.conn
        then (false, w)
        else (true, record w { ran = w.ran ++ k ∷ [] })
    | some c ↦ schedule_in c k w
  ]

  abbrev pub savepoint_ended : String → (Bool × World K sqlite.Conn) → (Bool × World K sqlite.Conn)
  savepoint_ended name (true, w) =
      (true, record w { conn = sqlite.release name w.conn; context = in_scopes joined w.context })
  savepoint_ended name (false, w) = (
    false,
    record w {
      conn =
          if sqlite.is_transaction w.conn
          then sqlite.release name (sqlite.rollback_to name w.conn)
          else w.conn;
      context = in_scopes dropped w.context;
    },
  )

  -- `withSavepoint`, in the context of the world.
  abbrev pub with_savepoint : Work K sqlite.Conn → Work K sqlite.Conn
  with_savepoint work w =
      let name = random_uuid w.drawn in
      savepoint_ended name (
        work (record w {
          conn = sqlite.savepoint name w.conn;
          context = in_scopes (λ ss. [] ∷ ss) w.context;
          drawn = suc w.drawn;
        }))

  abbrev pub rolled_back_all : World K sqlite.Conn → (Bool × World K sqlite.Conn)
  rolled_back_all w = (
    false,
    record w {
      conn = if sqlite.is_transaction w.conn then sqlite.rollback w.conn else w.conn;
      context = none;
    },
  )

  abbrev pub transaction_ended : (Bool × World K sqlite.Conn) → (Bool × World K sqlite.Conn)
  transaction_ended (true, w) =
      if sqlite.commits w.conn
      then (
        true,
        record w {
          conn = sqlite.commit w.conn;
          context = none;
          ran = w.ran ++ outermost_callbacks w.context;
        },
      )
      else rolled_back_all (record w { conn = sqlite.commit w.conn })
  transaction_ended (false, w) = rolled_back_all w

  abbrev pub own_transaction : Work K sqlite.Conn → Work K sqlite.Conn
  own_transaction work w = transaction_ended (
      work (record w {
        conn = sqlite.begin w.conn;
        context = some (record { owns_outermost = true; scopes = [] ∷ [] });
      }))

  abbrev pub forget_context : (Bool × World K sqlite.Conn) → (Bool × World K sqlite.Conn)
  forget_context (b, w) = (b, record w { context = none })

  -- A transaction that this module did not begin.
  abbrev pub external_transaction : Work K sqlite.Conn → Work K sqlite.Conn
  external_transaction work w = forget_context (
      with_savepoint work
        (record w { context = some (record { owns_outermost = false; scopes = [] }) }))

  -- `withTransaction`
  abbrev pub with_transaction : Work K sqlite.Conn → Work K sqlite.Conn
  with_transaction work w = elim w.context [
    | some c ↦ with_savepoint work w
    | none ↦
        if sqlite.is_transaction w.conn then external_transaction work w else own_transaction work w
  ]

  abbrev pub then_run :
      (Bool → Work K sqlite.Conn) → (Bool × World K sqlite.Conn) → (Bool × World K sqlite.Conn)
  then_run rest (b, w) = rest b w

  -- The rest runs where the part before it returned.
  abbrev pub if_returned : Work K sqlite.Conn → Bool → Work K sqlite.Conn
  if_returned rest true w = rest w
  if_returned rest false w = (false, w)

  unfoldable pub run : Program D K → Work K sqlite.Conn
  run done w = (true, w)
  run throws w = (false, w)
  run (writes f p) w = run p (record w { conn = sqlite.change f w.conn })
  run (schedules k p) w = then_run (if_returned (run p)) (after_commit k w)
  run (transaction q p) w = then_run (if_returned (run p)) (with_transaction (run q) w)
  run (attempt q p) w = then_run (λ b. run p) (run q w)
