-- ===== src/Python/Access.antt =====
-- Subscripts, iteration and integer ranges, with the exceptions that Python raises.
use agentic_sdd_governance.Base.{
  ℕ, String, Bool, false, ◌&&◌, Option, none, some, List, [], ◌∷◌, leb, Result, ok, err, type_error,
  key_error, map,
}
use agentic_sdd_governance.Python.Value.{
  ℤ, pos, negsuc, Value, int, str, arr, obj, to_list, keys, lookup,
}

-- `v[k]`
unfoldable pub subscript : Value → String → Result Value
subscript (obj d) k = elim (lookup k d) [ none ↦ err key_error | some v ↦ ok v ]
subscript _ k = err type_error

chars : String → List Value
chars String.[] = []
chars (String.◌∷◌ c s) = str (String.◌∷◌ c String.[]) ∷ chars s

-- `for x in v`
unfoldable pub iterate : Value → Result (List Value)
unfolding chars
iterate (arr vs) = ok (to_list vs)
iterate (str s) = ok (chars s)
iterate (obj d) = ok (map str (keys d))
iterate _ = err type_error

-- `low <= n <= high`, for bounds that are not negative
unfoldable pub in_range : ℕ → ℕ → ℤ → Bool
in_range low high (pos n) = leb low n && leb n high
in_range low high (negsuc n) = false

-- The number of a value in such a range.
abbrev pub magnitude : ℤ → ℕ
magnitude (pos n) = n
magnitude (negsuc n) = 0

-- `isinstance(v, int) and not isinstance(v, bool)`
abbrev pub as_int : Value → Option ℤ
as_int (int n) = some n
as_int _ = none
