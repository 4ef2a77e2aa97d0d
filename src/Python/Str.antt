-- ===== src/Python/Str.antt =====
-- More methods of `str`: `strip`, `startswith`, `endswith`, `splitlines`, `split` and `join`.
use Prim.Native.Char.{Char, code}
use agentic_sdd_governance.Base.{
  ℕ, zero, suc, String, ◌<>◌, Bool, true, false, not, ◌&&◌, ◌||◌, List, [], ◌∷◌, leb, eqb, keep,
  if◌then◌else◌,
}
use agentic_sdd_governance.Python.Text.{is_space}

abbrev pub is_empty : String → Bool
is_empty String.[] = true
is_empty (String.◌∷◌ c s) = false

-- `s.lstrip()`
unfoldable pub lstrip : String → String
lstrip String.[] = ""
lstrip (String.◌∷◌ c s) = let rest = lstrip s in if is_space (code c) then rest else String.◌∷◌ c s

-- `s.rstrip()`
unfoldable pub rstrip : String → String
rstrip String.[] = ""
rstrip (String.◌∷◌ c s) =
    let rest = rstrip s in if is_space (code c) && is_empty rest then "" else String.◌∷◌ c rest

-- `s.strip()`
unfoldable pub strip : String → String
unfolding lstrip rstrip
strip s = lstrip (rstrip s)

-- `s.startswith(p)`
unfoldable pub starts_with : String → String → Bool
starts_with String.[] s = true
starts_with (String.◌∷◌ c p) String.[] = false
starts_with (String.◌∷◌ c p) (String.◌∷◌ d s) = eqb (code c) (code d) && starts_with p s

-- `c in s` for one character
unfoldable pub contains_char : ℕ → String → Bool
contains_char k String.[] = false
contains_char k (String.◌∷◌ c s) = eqb (code c) k || contains_char k s

-- `t in s`
unfoldable pub contains : String → String → Bool
unfolding starts_with
contains t String.[] = is_empty t
contains t (String.◌∷◌ c s) = starts_with t (String.◌∷◌ c s) || contains t s

-- `s[n:]`
unfoldable pub drop : ℕ → String → String
drop n String.[] = ""
drop zero s = s
drop (suc n) (String.◌∷◌ c s) = drop n s

abbrev attach : Char → List String → List String
attach c [] = String.◌∷◌ c "" ∷ []
attach c (s ∷ rest) = String.◌∷◌ c s ∷ rest

-- `s.split(c)` at each character that a test selects
unfoldable pub split_by : (ℕ → Bool) → String → List String
split_by test String.[] = "" ∷ []
split_by test (String.◌∷◌ c s) =
    let rest = split_by test s in if test (code c) then "" ∷ rest else attach c rest

-- `s.split()`
unfoldable pub words : String → List String
unfolding split_by is_space
words s = keep (λ word. not (is_empty word)) (split_by is_space s)

is_break : ℕ → Bool
is_break c =
    (leb 10 c && leb c 13)
    || (leb 28 c && leb c 30)
    || (eqb c 0x85)
    || (eqb c 0x2028)
    || (eqb c 0x2029)

-- `s.splitlines()`
unfoldable pub splitlines : String → List String
unfolding is_break
splitlines String.[] = []
splitlines (String.◌∷◌ c String.[]) = if is_break (code c) then "" ∷ [] else String.◌∷◌ c "" ∷ []
splitlines (String.◌∷◌ c (String.◌∷◌ d s)) = elim (eqb (code c) 13 && eqb (code d) 10) [
  | true ↦ "" ∷ splitlines s
  | false ↦
      let rest = splitlines (String.◌∷◌ d s) in
      if is_break (code c) then "" ∷ rest else attach c rest
]

-- `sep.join(texts)`
unfoldable pub join : String → List String → String
join sep [] = ""
join sep (s ∷ []) = s
join sep (s ∷ t ∷ rest) = s <> sep <> join sep (t ∷ rest)

-- `s.split(c, 1)`, where `c` is in `s`.
pub data Cut : Type 0 where
  uncut : Cut
  cut : String → String → Cut

widen : Char → Cut → Cut
widen c uncut = uncut
widen c (cut before after) = cut (String.◌∷◌ c before) after

unfoldable pub cut_at : ℕ → String → Cut
unfolding widen
cut_at k String.[] = uncut
cut_at k (String.◌∷◌ c s) = elim (eqb (code c) k) [ true ↦ cut "" s | false ↦ widen c (cut_at k s) ]
