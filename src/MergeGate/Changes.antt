-- ===== src/MergeGate/Changes.antt =====
-- src/sddgov/merge_gate.py: the changes that Git prints, and the paths that are read from them.
use Prim.Native.Char.{code, nul}
use Prim.Native.String.append
use Prim.Native.String.{compare}
use Prim.Native.Nat.{Ordering}
use text.Mathlib.Text.{is_eq}
use agentic_sdd_governance.Base.{
  ◌≡◌, refl, sym, ap, ◌∙◌, subst, String, ◌<>◌, true, false, ◌||◌, List, [], ◌∷◌, ◌++◌, any, eqb,
  arith, All, ◌==◌, eq_iff, Result, ok,
}
use agentic_sdd_governance.Python.Str.{is_empty, split_by, contains_char}
use agentic_sdd_governance.MergeGate.Git.{
  Git, git, insert, sorted_set, drop_last_empty, nul_fields, has_two_paths, record_paths,
  changed_paths, commit_edge_paths,
}

-- A line of `git diff --name-status`: a change of one path, or a rename or a copy.
pub data Change : Type 0 where
  changed : String → String → Change
  moved : String → String → String → Change

abbrev pub fields_of : Change → List String
fields_of (changed status path) = status ∷ path ∷ []
fields_of (moved status from to) = status ∷ from ∷ to ∷ []

abbrev pub paths_of : List Change → List String
paths_of [] = []
paths_of (changed status path ∷ changes) = path ∷ paths_of changes
paths_of (moved status from to ∷ changes) = from ∷ to ∷ paths_of changes

-- The letters of the status are those of such a line.
abbrev pub IsChange : Change → Type 0
IsChange (changed status path) = (has_two_paths status ≡ false) × (is_empty status ≡ false)
IsChange (moved status from to) = has_two_paths status ≡ true

abbrev pub fields_all : List Change → List String
fields_all [] = []
fields_all (changed status path ∷ changes) = status ∷ path ∷ fields_all changes
fields_all (moved status from to ∷ changes) = status ∷ from ∷ to ∷ fields_all changes

-- What `-z` prints: each field ends with a NUL.
abbrev pub print : List String → String
print [] = ""
print (s ∷ fields) = s <> String.◌∷◌ nul (print fields)

record_paths-fields :
    (message : String) (changes : List Change)
    → All IsChange changes
    → record_paths message (fields_all changes) ≡ ok (paths_of changes)
unfolding record_paths
record_paths-fields message [] h = refl
record_paths-fields message (changed status path ∷ []) ((one, named), h) =
    rw (one, named, record_paths) refl
record_paths-fields message (changed status path ∷ changed s p ∷ changes) ((one, named), h) =
    rw (one, named, record_paths, record_paths-fields message (changed s p ∷ changes) h) refl
record_paths-fields message (changed status path ∷ moved s f t ∷ changes) ((one, named), h) =
    rw (one, named, record_paths, record_paths-fields message (moved s f t ∷ changes) h) refl
record_paths-fields message (moved status from to ∷ changes) (two, h) =
    rw (two, record_paths, record_paths-fields message changes h) refl

-- No NUL in a field.
abbrev pub IsPlain : String → Type 0
IsPlain s = contains_char 0 s ≡ false

split_by-field :
    (s rest : String)
    → IsPlain s
    → split_by (λ c. eqb c 0) (s <> String.◌∷◌ nul rest) ≡ s ∷ split_by (λ c. eqb c 0) rest
unfolding split_by contains_char
split_by-field String.[] rest h = rw (append.nil (String.◌∷◌ nul rest)) refl
split_by-field (String.◌∷◌ c s) rest h =
    let plain : (eqb (code c) 0 ≡ false) × IsPlain s = ground arith in
    rw (append.cons c s (String.◌∷◌ nul rest), plain.0, split_by-field s rest plain.1) refl

split_by-print :
    (fields : List String)
    → All IsPlain fields
    → split_by (λ c. eqb c 0) (print fields) ≡ fields ++ ("" ∷ [])
unfolding split_by
split_by-print [] h = refl
split_by-print (s ∷ fields) (plain, h) =
    split_by-field s (print fields) plain ∙ ap (λ rest. s ∷ rest) (split_by-print fields h)

drop_last_empty-append : (fields : List String) → drop_last_empty (fields ++ ("" ∷ [])) ≡ fields
unfolding drop_last_empty
drop_last_empty-append [] = refl
drop_last_empty-append (s ∷ []) = refl
drop_last_empty-append (s ∷ t ∷ fields) =
    ap (λ rest. s ∷ rest) (drop_last_empty-append (t ∷ fields))

nul_fields-print : (fields : List String) → All IsPlain fields → nul_fields (print fields) ≡ fields
unfolding nul_fields
nul_fields-print fields h =
    ap drop_last_empty (split_by-print fields h) ∙ drop_last_empty-append fields

-- Membership does not see the order, nor how often.
placed-any :
    (path s t : String) (texts rest : List String) (o : Ordering)
    → compare s t ≡ o
    → any (λ u. path == u) rest ≡ ((path == s) || any (λ u. path == u) texts)
    → any
        (λ u. path == u)
        (elim o [ Ordering.lt ↦ s ∷ t ∷ texts | Ordering.eq ↦ t ∷ texts | Ordering.gt ↦ t ∷ rest ])
      ≡ ((path == s) || ((path == t) || any (λ u. path == u) texts))
placed-any path s t texts rest Ordering.lt e h = refl
placed-any path s t texts rest Ordering.eq e h =
    let same = (eq_iff s t).0 (ap is_eq e) in
    subst
      (λ u.
        ((path == t) || any (λ v. path == v) texts)
        ≡ ((path == u) || ((path == t) || any (λ v. path == v) texts)))
      (sym same) (ground arith)
placed-any path s t texts rest Ordering.gt e h = ground (arith, h)

any-insert :
    (path s : String) (texts : List String)
    → any (λ t. path == t) (insert s texts) ≡ ((path == s) || any (λ t. path == t) texts)
unfolding insert
any-insert path s [] = refl
any-insert path s (t ∷ texts) =
    placed-any path s t texts (insert s texts) (compare s t) refl (any-insert path s texts)

any-sorted_set :
    (path : String) (texts : List String)
    → any (λ t. path == t) (sorted_set texts) ≡ any (λ t. path == t) texts
unfolding sorted_set
any-sorted_set path [] = refl
any-sorted_set path (s ∷ texts) =
    any-insert path s (sorted_set texts) ∙ ap (λ b. (path == s) || b) (any-sorted_set path texts)

-- The paths that are read: those of the changes, each once.
abbrev pub IsReadAs : Result (List String) → List Change → Type 0
IsReadAs answer changes =
    (answer ≡ ok (sorted_set (paths_of changes)))
    × ((path : String)
        → any (λ other. path == other) (sorted_set (paths_of changes))
          ≡ any (λ other. path == other) (paths_of changes))

-- Where Git prints changes between the merge base of two commits and the second, and other changes
-- for the edge between the two, none with a NUL in a field, and each with a status that says how
-- many paths follow it: `changed_paths` reads back exactly the source and destination paths of the
-- first, and `_commit_edge_paths` those of the second; no path is lost, and none is made up. What
-- Git prints is meant as `_git` gives it: as text, and stripped.
pub changed_paths-print :
    (run : Git) (start end : String) (changes edges : List Change)
    → All IsChange changes
    → All IsPlain (fields_all changes)
    → All IsChange edges
    → All IsPlain (fields_all edges)
    → git run ("diff" ∷ "-M" ∷ "--name-status" ∷ "-z" ∷ (start <> "..." <> end) ∷ [])
      ≡ ok (print (fields_all changes))
    → git run ("diff" ∷ "-M" ∷ "--name-status" ∷ "-z" ∷ start ∷ end ∷ "--" ∷ [])
      ≡ ok (print (fields_all edges))
    → IsReadAs (changed_paths run start end) changes
      × IsReadAs (commit_edge_paths run start end) edges
unfolding changed_paths commit_edge_paths
changed_paths-print run start end changes edges h plain h' plain' e f = (
  (
    rw
        (
          e,
          nul_fields-print (fields_all changes) plain,
          record_paths-fields "git diff produced an invalid NUL name-status record" changes h,
        )
        refl,
    λ path. any-sorted_set path (paths_of changes),
  ),
  (
    rw
        (
          f,
          nul_fields-print (fields_all edges) plain',
          record_paths-fields "git diff produced an invalid commit-edge record" edges h',
        )
        refl,
    λ path. any-sorted_set path (paths_of edges),
  ),
)
