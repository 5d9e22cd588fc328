-- ===== src/Cloud/Row/Laws.antt =====
-- `identical` is symmetric and transitive.
use code_butler.Prelude.{
  String, Bool, true, ◌&&◌, Option, none, some, [], ◌∷◌, ◌≡◌, refl, arith, eq_iff, Option-cases,
  inl, inr,
}
use code_butler.Prelude.Assoc.{get}
use code_butler.Cloud.Row.{
  Value, null, text, number, big, bytes, Row, normalize_value, value_eq, same_value, covers,
  identical,
}

pub identical_sym : (a b : Row) → identical a b ≡ identical b a
unfolding identical
identical_sym a b = ground (arith)

value_eq_trans : (a b c : Value) → value_eq a b ≡ true → value_eq b c ≡ true → value_eq a c ≡ true
value_eq_trans null null null h k = refl
value_eq_trans (text a) (text b) (text c) h k = ground (arith, eq_iff a b, eq_iff b c, eq_iff a c)
value_eq_trans (number a) (number b) (number c) h k =
    ground (arith, eq_iff a b, eq_iff b c, eq_iff a c)
value_eq_trans (big a) (big b) (big c) h k = ground (arith, eq_iff a b, eq_iff b c, eq_iff a c)
value_eq_trans (bytes a) (bytes b) (bytes c) h k =
    ground (arith, eq_iff a b, eq_iff b c, eq_iff a c)
value_eq_trans _ _ _ h k = cc

same_value_trans :
    (a b : Value) (c : Option Value)
    → same_value a (some b) ≡ true
    → same_value b c ≡ true
    → same_value a c ≡ true
same_value_trans a b none h k = cc
same_value_trans a b (some c) h k =
    value_eq_trans (normalize_value a) (normalize_value b) (normalize_value c) h k

covers-get :
    (b c : Row) (k : String) (v w : Value)
    → covers b c ≡ true
    → get b k ≡ some w
    → same_value w (get c k) ≡ true
unfolding covers get
covers-get [] c k v w h e = cc
covers-get ((j, x) ∷ b) c k v w h e = ground (arith, eq_iff j k, covers-get b c k v w)

head_of :
    (v : Value) (o : Option Value) (t : Bool) → (same_value v o && t) ≡ true → same_value v o ≡ true
head_of v o t h = ground arith

tail_of : (v : Value) (o : Option Value) (t : Bool) → (same_value v o && t) ≡ true → t ≡ true
tail_of v o t h = ground arith

covers_trans : (a b c : Row) → covers a b ≡ true → covers b c ≡ true → covers a c ≡ true
unfolding covers
covers_trans [] b c h k = refl
covers_trans ((j, v) ∷ a) b c h k = elim (Option-cases (get b j)) [
  | inl missing ↦ cc (rw missing at (head_of v (get b j) _ h))
  | inr (w, found) ↦ ground (
    arith,
    same_value_trans v w (get c j) (rw found at (head_of v (get b j) _ h))
        (covers-get b c j v w k found),
    covers_trans a b c (tail_of v (get b j) _ h) k,
  )
]

-- Two rows that are each the same as a third are the same.
pub identical_trans :
    (a b c : Row) → identical a b ≡ true → identical b c ≡ true → identical a c ≡ true
unfolding identical
identical_trans a b c h k = ground (arith, covers_trans a b c, covers_trans c b a)
