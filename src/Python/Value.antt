-- ===== src/Python/Value.antt =====
-- JSON data as Python holds it. A finite float is `mantissa / 2 ^ shift`; NaN and the infinities,
-- which `json` also reads, are not among the values. A dict is a list of entries in insertion order.
use agentic_sdd_governance.Base.{
  ℕ, String, Bool, true, false, not, ◌&&◌, Option, none, some, List, [], ◌∷◌, ◌==◌, eqb, any, all,
  if◌then◌else◌,
}
use agentic_sdd_governance.Python.Text.{is_blank}

-- `negsuc n` is -(n + 1).
pub data ℤ : Type 0 where
  pos : ℕ → ℤ
  negsuc : ℕ → ℤ

mutual
  pub data Value : Type 0 where
    null : Value
    bool : Bool → Value
    int : ℤ → Value
    float : ℤ → ℕ → Value
    str : String → Value
    arr : Items → Value
    obj : Fields → Value

  pub data Fields : Type 0 where
    end : Fields
    field : String → Value → Fields → Fields

  pub data Items : Type 0 where
    nil : Items
    cons : Value → Items → Items

-- The elements of a list, and a list of values as an array.
abbrev pub to_list : Items → List Value
to_list nil = []
to_list (cons v vs) = v ∷ to_list vs

abbrev pub of_list : List Value → Items
of_list [] = nil
of_list (v ∷ vs) = cons v (of_list vs)

-- `d[k]` where it is there.
unfoldable pub lookup : String → Fields → Option Value
lookup k end = none
lookup k (field j v d) = if j == k then some v else lookup k d

-- `k in d`
unfoldable pub has : String → Fields → Bool
unfolding lookup
has k d = elim (lookup k d) [ none ↦ false | some v ↦ true ]

-- `d.get(k)`
unfoldable pub get : String → Fields → Value
unfolding lookup
get k d = elim (lookup k d) [ none ↦ null | some v ↦ v ]

-- `d[k] = v`
unfoldable pub put : String → Value → Fields → Fields
put k v end = field k v end
put k v (field j w d) = if j == k then field j v d else field j w (put k v d)

abbrev pub keys : Fields → List String
keys end = []
keys (field k v d) = k ∷ keys d

-- `set(d) - names` has no element.
unfoldable pub keys_within : List String → Fields → Bool
keys_within names end = true
keys_within names (field k v d) = any (λ n. k == n) names && keys_within names d

-- `names - set(d)` has no element.
unfoldable pub has_all : List String → Fields → Bool
unfolding has
has_all names d = all (λ n. has n d) names

-- `set(d) == names`
unfoldable pub has_exactly : List String → Fields → Bool
unfolding keys_within has_all
has_exactly names d = keys_within names d && has_all names d

-- `isinstance(v, str) and v.strip()`
unfoldable pub is_text : Value → Bool
unfolding is_blank
is_text (str s) = not (is_blank s)
is_text _ = false

-- `isinstance(v, str)`
abbrev pub is_str : Value → Bool
is_str (str s) = true
is_str _ = false

-- `v is None`
abbrev pub is_null : Value → Bool
is_null null = true
is_null _ = false

-- `isinstance(v, dict)`
abbrev pub is_dict : Value → Bool
is_dict (obj d) = true
is_dict _ = false

-- `v is True`
abbrev pub is_true : Value → Bool
is_true (bool b) = b
is_true _ = false

-- `isinstance(v, bool)`
abbrev pub is_bool : Value → Bool
is_bool (bool b) = true
is_bool _ = false

-- `v == s` for a text
abbrev pub eq_str : Value → String → Bool
eq_str (str t) s = t == s
eq_str _ s = false

-- `v in {"a", "b", …}` for a set of texts
abbrev pub in_names : Value → List String → Bool
in_names (str s) names = any (λ n. s == n) names
in_names _ names = false

is_zero : ℤ → Bool
is_zero (pos n) = eqb n 0
is_zero (negsuc n) = false

-- `bool(v)`
unfoldable pub truthy : Value → Bool
unfolding is_zero
truthy null = false
truthy (bool b) = b
truthy (int n) = not (is_zero n)
truthy (float m s) = not (is_zero m)
truthy (str String.[]) = false
truthy (str (String.◌∷◌ c s)) = true
truthy (arr nil) = false
truthy (arr (cons v vs)) = true
truthy (obj end) = false
truthy (obj (field k v d)) = true
