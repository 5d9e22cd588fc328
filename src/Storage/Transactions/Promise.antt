-- ===== src/Storage/Transactions/Promise.antt =====
-- What the code that uses transactions may expect of them.
use code_butler.Prelude.{Bool, true, false, List, [], ◌∷◌, ◌++◌, if◌then◌else◌, ◌&&◌}

-- Code that uses the transactions, up to the values that it computes: it writes, schedules a
-- callback, throws, runs a part in a transaction, or catches what a part throws.
pub data Program (D K : Type 0) : Type 0 where
  done throws : Program D K
  writes : (D → D) → Program D K → Program D K
  schedules : K → Program D K → Program D K
  transaction attempt : Program D K → Program D K → Program D K

-- Whether a program returns, the data after it, and the callbacks that wait for the commit.
pub record Promised (D K : Type 0) : Type 0 where
  pub returned : Bool
  pub data_now : D
  pub callbacks : List K

module _ {D K : Type 0} where
  abbrev pub after_callbacks : List K → Promised D K → Promised D K
  after_callbacks ks r = record r { callbacks = ks ++ r.callbacks }

  -- A part that throws leaves no trace in a transaction.
  abbrev pub all_or_nothing : D → Promised D K → Promised D K
  all_or_nothing before r =
      if r.returned then r else record { returned = false; data_now = before; callbacks = [] }

  abbrev pub followed_by : Promised D K → (D → Promised D K) → Promised D K
  followed_by r rest = if r.returned then after_callbacks r.callbacks (rest r.data_now) else r

  unfoldable pub promise : Program D K → D → Promised D K
  promise done d = record { returned = true; data_now = d; callbacks = [] }
  promise throws d = record { returned = false; data_now = d; callbacks = [] }
  promise (writes f p) d = promise p (f d)
  promise (schedules k p) d = after_callbacks (k ∷ []) (promise p d)
  promise (transaction q p) d = followed_by (all_or_nothing d (promise q d)) (promise p)
  promise (attempt q p) d =
      let r = promise q d in after_callbacks r.callbacks (promise p r.data_now)

  -- The outermost transaction; `commits` is whether COMMIT succeeds.
  abbrev pub settled : Bool → D → Promised D K → Promised D K
  settled commits before r =
      if r.returned && commits
      then r
      else record { returned = false; data_now = before; callbacks = [] }
