-- ===== src/Prelude/Collect.antt =====
-- `for (const id of ids) { ...; if (value) merged.set(id, value); }`
use Prim.Native.String.{String}
use mathlib.Core.Path.{◌≡◌, refl, sym, ◌∙◌}
use mathlib.Core.Logic.{inl, inr}
use mathlib.Core.Bool.{Bool, true, false}
use mathlib.Core.Option.{Option, none, some}
use mathlib.Core.List.{List, [], ◌∷◌}
use native.Mathlib.Omega.{arith}
use text.Mathlib.Text.{◌==◌}
use text.Mathlib.TextEquality.{eq_iff}
use text.Mathlib.TextPositions.{eq_refl}
use code_butler.Prelude.Tests.{Bool-cases, if◌then◌else◌}
use code_butler.Prelude.Lists.{contains, as_set, contains-as_set}
use code_butler.Prelude.Assoc.{Assoc, get, put, get-put, keys}

module _ {V : Type 0} where
  abbrev pub or_else : Option V → Option V → Option V
  or_else none o = o
  or_else (some v) o = some v

  abbrev pub set_some : Assoc V → String → Option V → Assoc V
  set_some m id none = m
  set_some m id (some v) = put m id v

  pub get_absent : (m : Assoc V) (id : String) → contains id (keys m) ≡ false → get m id ≡ none
  unfolding get
  get_absent [] id e = refl
  get_absent ((j, v) ∷ m) id e = ground (arith, e, get_absent m id)

  module _ (value : String → Option V) where
    unfoldable pub set_each : Assoc V → List String → Assoc V
    set_each m [] = m
    set_each m (id ∷ ids) = set_each (set_some m id (value id)) ids

    get-set_some :
        (m : Assoc V) (j id : String) (o : Option V)
        → get (set_some m j o) id ≡ (if j == id then or_else o (get m id) else get m id)
    get-set_some m j id none = ground arith
    get-set_some m j id (some v) = get-put m j id v

    or_else-none : (a : Option V) → or_else a none ≡ a
    or_else-none none = refl
    or_else-none (some v) = refl

    -- A key that is set twice is set to the same value.
    if_same :
        (b : Bool) (a o : Option V)
        → (if b then or_else a (or_else a o) else or_else a o) ≡ or_else a o
    if_same false a o = refl
    if_same true none o = refl
    if_same true (some v) o = refl

    get-set_each :
        (m : Assoc V) (ids : List String) (id : String)
        → get (set_each m ids) id
          ≡ (if contains id ids then or_else (value id) (get m id) else get m id)
    unfolding set_each
    get-set_each m [] id = refl
    get-set_each m (j ∷ ids) id =
        get-set_each (set_some m j (value j)) ids id
        ∙ rw (get-set_some m j id (value j)) (elim (Bool-cases (j == id)) [
          | inl q ↦
              rw (← (eq_iff j id).0 q, eq_refl j) (if_same (contains j ids) (value j) (get m j))
          | inr q ↦ rw q refl
        ])

    -- The collected map has exactly the values, if there is none outside the keys.
    pub get-set_each_set :
        (ids : List String) (id : String)
        → (contains id ids ≡ false → value id ≡ none)
        → get (set_each [] (as_set ids)) id ≡ value id
    unfolding get
    get-set_each_set ids id absent =
        get-set_each [] (as_set ids) id
        ∙ rw (contains-as_set id ids) (elim (Bool-cases (contains id ids)) [
          | inl e ↦ rw e (or_else-none (value id))
          | inr e ↦ rw e (sym (absent e))
        ])
