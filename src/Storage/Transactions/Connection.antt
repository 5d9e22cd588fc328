-- ===== src/Storage/Transactions/Connection.antt =====
-- The connection of node:sqlite, by what SQLite documents.
use code_butler.Prelude.{
  String, Bool, true, false, Option, none, some, List, [], ◌∷◌, is_some, ◌==◌, ◌≡◌, if◌then◌else◌,
}

-- What a connection holds: the data, the data before BEGIN, and the savepoints with the data before
-- each, the innermost first.
pub record Snapshot (D : Type 0) : Type 0 where
  pub data_now : D
  pub base : Option D
  pub savepoints : List (String × D)

module _ {D : Type 0} where
  -- RELEASE ends the savepoint and those within it.
  abbrev pub released_from : String → List (String × D) → List (String × D)
  released_from name [] = []
  released_from name ((n, d) ∷ rest) = if n == name then rest else released_from name rest

  -- ROLLBACK TO keeps the savepoint.
  abbrev pub rolled_to :
      String → D → List (String × D) → List (String × D) → Snapshot D → Snapshot D
  rolled_to name now all [] s = s
  rolled_to name now all ((n, d) ∷ rest) s =
      if n == name
      then record { data_now = d; base = s.base; savepoints = (n, d) ∷ rest }
      else rolled_to name now all rest s

-- The connection of node:sqlite, by what SQLite documents of its statements.
pub record Sqlite (D : Type 0) : Type 1 where
  pub Conn : Type 0
  pub view : Conn → Snapshot D
  pub is_transaction : Conn → Bool
  pub change : (D → D) → Conn → Conn
  pub begin : Conn → Conn
  -- whether COMMIT succeeds
  pub commits : Conn → Bool
  pub commit : Conn → Conn
  pub rollback : Conn → Conn
  pub savepoint : String → Conn → Conn
  pub release : String → Conn → Conn
  pub rollback_to : String → Conn → Conn
  pub view-is_transaction : (c : Conn) → is_transaction c ≡ is_some (view c).base
  pub view-change :
      (f : D → D) (c : Conn)
      → view (change f c) ≡ record (view c) { data_now = f (view c).data_now }
  pub view-begin :
      (c : Conn)
      → (view c).base ≡ none
      → view (begin c)
        ≡ record { data_now = (view c).data_now; base = some (view c).data_now; savepoints = [] }
  pub view-commit :
      (c : Conn)
      → commits c ≡ true
      → view (commit c) ≡ record { data_now = (view c).data_now; base = none; savepoints = [] }
  -- a COMMIT that fails leaves the transaction open
  pub view-commit_failed : (c : Conn) → commits c ≡ false → view (commit c) ≡ view c
  pub view-rollback :
      (c : Conn) (d : D)
      → (view c).base ≡ some d
      → view (rollback c) ≡ record { data_now = d; base = none; savepoints = [] }
  pub view-savepoint :
      (name : String) (c : Conn)
      → view (savepoint name c)
        ≡ record (view c) { savepoints = (name, (view c).data_now) ∷ (view c).savepoints }
  pub view-release :
      (name : String) (c : Conn)
      → view (release name c)
        ≡ record (view c) { savepoints = released_from name (view c).savepoints }
  pub view-rollback_to :
      (name : String) (c : Conn)
      → view (rollback_to name c)
        ≡ rolled_to name (view c).data_now (view c).savepoints (view c).savepoints (view c)
