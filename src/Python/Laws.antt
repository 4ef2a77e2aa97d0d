-- ===== src/Python/Laws.antt =====
-- Laws of dicts and arrays.
use agentic_sdd_governance.Base.{
  ◌≡◌, refl, ap, ◌∙◌, String, true, ◌&&◌, some, List, [], ◌∷◌, any, all, arith, eq_iff, eq_refl,
  ◌==◌, if◌then◌else◌, Bool-cases, inl, inr,
}
use agentic_sdd_governance.Python.Value.{
  Value, null, bool, int, float, str, arr, obj, eq_str, Fields, field, end, lookup, has, get, put,
  keys_within, has_all, has_exactly, to_list, of_list,
}

pub to_list-of_list : (vs : List Value) → to_list (of_list vs) ≡ vs
to_list-of_list [] = refl
to_list-of_list (v ∷ vs) = rw (to_list-of_list vs)

pub lookup-put :
    (k j : String) (v : Value) (d : Fields)
    → lookup j (put k v d) ≡ (if k == j then some v else lookup j d)
unfolding lookup put
lookup-put k j v end = refl
lookup-put k j v (field i w d) =
    ground (arith, eq_iff k j, eq_iff i k, eq_iff i j, lookup-put k j v d)

pub get-put :
    (k j : String) (v : Value) (d : Fields) → get j (put k v d) ≡ (if k == j then v else get j d)
unfolding get
get-put k j v d = rw (lookup-put k j v d, get) (ground arith)

pub has-put :
    (k j : String) (v : Value) (d : Fields) → has j (put k v d) ≡ (if k == j then true else has j d)
unfolding has
has-put k j v d = rw (lookup-put k j v d, has) (ground arith)

pub get-put_self : (k : String) (v : Value) (d : Fields) → get k (put k v d) ≡ v
get-put_self k v d = get-put k k v d ∙ rw (eq_refl k)

-- Writing to a key that is there leaves the set of keys as it is.
pub keys_within-put :
    (names : List String) (k : String) (v : Value) (d : Fields)
    → has k d ≡ true
    → keys_within names (put k v d) ≡ keys_within names d
unfolding keys_within put has
keys_within-put names k v end h = cc
keys_within-put names k v (field i w d) h = elim (Bool-cases (i == k)) [
  | inl same ↦ rw same
  | inr other ↦
      rw other (ap (λ b. any (λ n. i == n) names && b) (keys_within-put names k v d (ground arith)))
]

has-put-true :
    (k j : String) (v : Value) (d : Fields) → has k d ≡ true → has j (put k v d) ≡ has j d
has-put-true k j v d h = has-put k j v d ∙ ground (arith, eq_iff k j)

pub has_exactly-put :
    (names : List String) (k : String) (v : Value) (d : Fields)
    → has k d ≡ true
    → has_exactly names (put k v d) ≡ has_exactly names d
unfolding has_exactly has_all
has_exactly-put names k v d h = cc (keys_within-put names k v d h, has_all_put names)
  where
    has_all_put : (ns : List String) → all (λ n. has n (put k v d)) ns ≡ all (λ n. has n d) ns
    has_all_put [] = refl
    has_all_put (n ∷ ns) = rw (has-put-true k n v d h, has_all_put ns)

-- A value that equals a text is this text.
pub eq_str-eq : (v : Value) (s : String) → eq_str v s ≡ true → v ≡ str s
eq_str-eq null s h = cc
eq_str-eq (bool b) s h = cc
eq_str-eq (int n) s h = cc
eq_str-eq (float n k) s h = cc
eq_str-eq (str t) s h = ap str ((eq_iff t s).0 h)
eq_str-eq (arr items) s h = cc
eq_str-eq (obj d) s h = cc
