-- ===== src/Storage/Transactions/Tests.antt =====
-- A connection that behaves as SQLite documents, and a run with a part that throws.
use code_butler.Prelude.{
  ℕ, String, true, Option, none, some, List, [], ◌∷◌, ◌++◌, is_some, ◌≡◌, refl,
}
use code_butler.Storage.Transactions.Connection.{Sqlite, Snapshot, released_from, rolled_to}
use code_butler.Storage.Transactions.Promise.{
  Program, done, throws, writes, schedules, transaction, attempt, promise, settled,
}
use code_butler.Storage.Transactions.{World, run, with_transaction}
use code_butler.Storage.Transactions.Outermost.{Settled, begin_own, with_transaction-Settled}

abbrev Data : Type 0
Data = List ℕ

abbrev restored : Option Data → Data → Data
restored none d = d
restored (some before) d = before

abbrev memory_sqlite : Sqlite Data
memory_sqlite = record {
  Conn = Snapshot Data;
  view = λ c. c;
  is_transaction = λ c. is_some c.base;
  change = λ f c. record c { data_now = f c.data_now };
  begin = λ c. record { data_now = c.data_now; base = some c.data_now; savepoints = [] };
  commits = λ c. true;
  commit = λ c. record { data_now = c.data_now; base = none; savepoints = [] };
  rollback = λ c. record { data_now = restored c.base c.data_now; base = none; savepoints = [] };
  savepoint = λ name c. record c { savepoints = (name, c.data_now) ∷ c.savepoints };
  release = λ name c. record c { savepoints = released_from name c.savepoints };
  rollback_to = λ name c. rolled_to name c.data_now c.savepoints c.savepoints c;
  view-is_transaction = λ c. refl;
  view-change = λ f c. refl;
  view-begin = λ c h. refl;
  view-commit = λ c h. refl;
  view-commit_failed = λ c h. cc;
  view-rollback = λ c d h. rw h refl;
  view-savepoint = λ name c. refl;
  view-release = λ name c. refl;
  view-rollback_to = λ name c. refl;
}

-- It writes 1 and schedules "a"; a part writes 2, schedules "b" and throws; then it writes 3.
abbrev program : Program Data String
program =
    writes (λ d. d ++ 1 ∷ [])
      (schedules "a" (
        attempt (transaction (writes (λ d. d ++ 2 ∷ []) (schedules "b" throws)) done)
          (writes (λ d. d ++ 3 ∷ []) done)))

abbrev start : World String (Snapshot Data)
start = record {
  conn = record { data_now = []; base = none; savepoints = [] };
  context = none;
  ran = [];
  drawn = 0;
}

abbrev names : ℕ → String
names n = "code_butler_uuid"

kept :
    (with_transaction memory_sqlite names (run memory_sqlite names program) start).1.conn.data_now
    ≡ 1 ∷ 3 ∷ []
unfolding run
kept = refl

called :
    (with_transaction memory_sqlite names (run memory_sqlite names program) start).1.ran ≡ "a" ∷ []
unfolding run
called = refl

with_transaction-Settled_example :
    Settled memory_sqlite names start
      (settled
        (memory_sqlite.commits
          (run memory_sqlite names program (begin_own memory_sqlite names start)).1.conn)
        []
        (promise program []))
      (with_transaction memory_sqlite names (run memory_sqlite names program) start)
with_transaction-Settled_example =
    with_transaction-Settled memory_sqlite names program start refl refl
