-- ===== src/Python/Equality.antt =====
-- `v == w` on JSON data: numbers are compared by value, `True` is 1, and dicts are compared
-- whatever the order of their entries.
use Prim.Native.Nat.{◌*◌, ◌^◌, ◌-◌}
use agentic_sdd_governance.Base.{ℕ, suc, Bool, true, false, ◌&&◌, Option, none, some, eqb, ◌==◌}
use agentic_sdd_governance.Python.Value.{
  ℤ, pos, negsuc, Value, null, bool, int, float, str, arr, obj, Items, nil, cons, Fields, end,
  field, lookup,
}

unfoldable pub scale : ℤ → ℕ → ℤ
scale (pos n) k = pos (n * 2 ^ k)
scale (negsuc n) k = negsuc (suc n * 2 ^ k - 1)

unfoldable pub eq_int : ℤ → ℤ → Bool
eq_int (pos a) (pos b) = eqb a b
eq_int (negsuc a) (negsuc b) = eqb a b
eq_int _ _ = false

-- A number is `mantissa / 2 ^ shift`.
pub data Number : Type 0 where
  number : ℤ → ℕ → Number

unfoldable pub as_number : Value → Option Number
as_number (bool true) = some (number (pos 1) 0)
as_number (bool false) = some (number (pos 0) 0)
as_number (int n) = some (number n 0)
as_number (float m s) = some (number m s)
as_number _ = none

unfoldable pub eq_number : Option Number → Option Number → Bool
unfolding scale eq_int
eq_number (some (number m s)) (some (number n t)) = eq_int (scale m t) (scale n s)
eq_number _ _ = false

size : Fields → ℕ
size end = 0
size (field k v d) = suc (size d)

unfoldable mutual
  unfolding as_number eq_number size lookup

  pub py_eq : Value → Value → Bool
  py_eq null null = true
  py_eq (str s) (str t) = s == t
  py_eq (arr vs) (arr ws) = eq_items vs ws
  py_eq (obj d) (obj e) = eqb (size d) (size e) && eq_fields d e
  py_eq (bool b) w = eq_number (as_number (bool b)) (as_number w)
  py_eq (int n) w = eq_number (as_number (int n)) (as_number w)
  py_eq (float m s) w = eq_number (as_number (float m s)) (as_number w)
  py_eq _ _ = false

  eq_items : Items → Items → Bool
  eq_items nil nil = true
  eq_items (cons v vs) (cons w ws) = py_eq v w && eq_items vs ws
  eq_items _ _ = false

  -- Every entry of the first dict is an entry of the second.
  eq_fields : Fields → Fields → Bool
  eq_fields end e = true
  eq_fields (field k v d) e = elim (lookup k e) [
    | none ↦ false
    | some w ↦ py_eq v w && eq_fields d e
  ]
