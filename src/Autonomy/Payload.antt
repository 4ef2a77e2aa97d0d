-- ===== src/Autonomy/Payload.antt =====
-- src/sddgov/autonomy.py: `_validate_operation_payload`.
use Prim.Native.Char.{code}
use agentic_sdd_governance.Base.{
  ℕ, ◌+◌, String, ◌<>◌, Bool, true, false, not, ◌&&◌, ◌||◌, List, [], ◌∷◌, any, leb, eqb, Result,
  ok, err, value_error, ◌>>=◌, ◌>>◌, refuse, if◌then◌else◌, ◌==◌,
}
use agentic_sdd_governance.Python.Value.{
  Value, arr, obj, Items, nil, cons, Fields, field, end, get, has, has_exactly, is_text, is_dict,
  is_true, eq_str,
}
use agentic_sdd_governance.Host.{Host}
use agentic_sdd_governance.Governance.Actions.Row.{member}
use agentic_sdd_governance.Autonomy.Vocabulary.{sensitive_effects, operation_categories}

-- What `re.IGNORECASE` identifies with an ASCII letter: its capital, and the four letters beyond
-- ASCII that fold to one.
fold : ℕ → ℕ
fold c =
    if leb b'A' c && leb c b'Z'
    then c + 32
    else if eqb c 0x17f
    then b's'
    else if eqb c 0x212a
    then b'k'
    else if eqb c 0x130 || eqb c 0x131
    then b'i'
    else c

abbrev pub codes : String → List ℕ
codes String.[] = []
codes (String.◌∷◌ c s) = code c ∷ codes s

begins : List ℕ → List ℕ → Bool
unfolding fold
begins [] text = true
begins (w ∷ word) [] = false
begins (w ∷ word) (c ∷ text) = eqb w (fold c) && begins word text

occurs : List ℕ → List ℕ → Bool
unfolding begins
occurs word [] = begins word []
occurs word (c ∷ text) = begins word (c ∷ text) || occurs word text

abbrev sensitive_words : List String
sensitive_words =
    "password" ∷ "secret" ∷ "token" ∷ "credential" ∷ "privatekey" ∷ "private_key" ∷ "private-key"
    ∷ []

-- `sensitive_key.search(key)`
unfoldable pub is_sensitive_key : String → Bool
unfolding occurs
is_sensitive_key key = any (λ word. occurs (codes word) (codes key)) sensitive_words

unfoldable mutual
  pub contains_sensitive_key : Value → Bool
  contains_sensitive_key (obj d) = fields_sensitive d
  contains_sensitive_key (arr vs) = items_sensitive vs
  contains_sensitive_key _ = false

  pub items_sensitive : Items → Bool
  items_sensitive nil = false
  items_sensitive (cons v vs) = contains_sensitive_key v || items_sensitive vs

  pub fields_sensitive : Fields → Bool
  fields_sensitive end = false
  fields_sensitive (field k v d) =
      is_sensitive_key k || contains_sensitive_key v || fields_sensitive d

-- No key is unknown, and no flag is anything but `True`.
unfoldable pub effects_valid : Fields → Bool
effects_valid end = true
effects_valid (field k v d) = any (λ n. k == n) sensitive_effects && is_true v && effects_valid d

check_texts : List String → Fields → Result (Unit {0})
check_texts [] payload = ok tt
check_texts (n ∷ names) payload =
    refuse (not (is_text (get n payload))) ("operation_payload " <> n <> " must not be blank")
    >> check_texts names payload

check_parameters : Value → Result (Unit {0})
check_parameters v = do
  refuse (not (is_dict v)) "operation_payload parameters must be an object"
  refuse (contains_sensitive_key v) "operation_payload must reference secrets, never contain them"

check_effects : Value → Value → Result (Unit {0})
check_effects category (obj effects) = do
  refuse (not (effects_valid effects)) "operation_payload effects are invalid"
  refuse (eq_str category "public_release" && not (is_true (get "public_publish" effects)))
      "public_release operation must declare public_publish"
  refuse (has "public_publish" effects && not (eq_str category "public_release"))
      "public_publish effect requires public_release category"
check_effects category _ = err (value_error "operation_payload effects are invalid")

-- `_validate_operation_payload`: the digest of a payload that is valid.
unfoldable pub validate_payload : Host → Value → Result String
unfolding check_texts check_parameters check_effects
validate_payload h (obj payload) = do
  refuse
      (not (
        has_exactly
          ("repository" ∷ "project" ∷ "environment" ∷ "scope" ∷ "category" ∷ "target" ∷ "parameters"
            ∷ "effects" ∷ [])
          payload))
      "operation_payload has an invalid contract"
  known ← member (get "category" payload) operation_categories
  refuse (not known) "operation_payload category is not an L3 operation"
  refuse (not (is_text (get "target" payload))) "operation_payload target must not be blank"
  check_texts ("repository" ∷ "project" ∷ "environment" ∷ "scope" ∷ []) payload
  check_parameters (get "parameters" payload)
  check_effects (get "category" payload) (get "effects" payload)
  ok (h.sha256_json (obj payload))
validate_payload h _ = err (value_error "operation_payload has an invalid contract")
