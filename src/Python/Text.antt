-- ===== src/Python/Text.antt =====
-- Methods of `str`, over the native texts. A test on a character reads its code point.
use Prim.Native.Char.{code}
use agentic_sdd_governance.Base.{ℕ, suc, String, Bool, true, false, ◌&&◌, ◌||◌, leb, eqb}

-- `len(s)`: the number of characters.
unfoldable pub len : String → ℕ
len String.[] = 0
len (String.◌∷◌ c s) = suc (len s)

-- `c.isspace()`: the code points that `str.strip` removes.
unfoldable pub is_space : ℕ → Bool
is_space c =
    (leb 9 c && leb c 13)
    || (leb 28 c && leb c 32)
    || (eqb c 0x85)
    || (eqb c 0xa0)
    || (eqb c 0x1680)
    || (leb 0x2000 c && leb c 0x200a)
    || (eqb c 0x2028)
    || (eqb c 0x2029)
    || (eqb c 0x202f)
    || (eqb c 0x205f)
    || (eqb c 0x3000)

-- `not s.strip()`
unfoldable pub is_blank : String → Bool
unfolding is_space
is_blank String.[] = true
is_blank (String.◌∷◌ c s) = is_space (code c) && is_blank s

-- `all(test(ord(c)) for c in s)`
unfoldable pub all_chars : (ℕ → Bool) → String → Bool
all_chars test String.[] = true
all_chars test (String.◌∷◌ c s) = test (code c) && all_chars test s

-- A character of "0123456789abcdef".
unfoldable pub is_hex : ℕ → Bool
is_hex c = (leb b'0' c && leb c b'9') || (leb b'a' c && leb c b'f')

-- `re.fullmatch("[a-f0-9]{64}", s)`, and the same test written with `len` and `in`.
unfoldable pub is_sha256 : String → Bool
unfolding len all_chars is_hex
is_sha256 s = eqb (len s) 64 && all_chars is_hex s

-- `s.endswith(c)` for one character.
unfoldable pub ends_with_char : ℕ → String → Bool
ends_with_char k String.[] = false
ends_with_char k (String.◌∷◌ c String.[]) = eqb (code c) k
ends_with_char k (String.◌∷◌ c (String.◌∷◌ d s)) = ends_with_char k (String.◌∷◌ d s)
