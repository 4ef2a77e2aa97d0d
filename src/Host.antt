-- ===== src/Host.antt =====
-- What the program asks of its host, and does not compute itself: `datetime.fromisoformat`,
-- `isoformat` at whole seconds, and `hashlib.sha256` over canonical JSON. They are parameters; a
-- theorem that relies on their documented behaviour takes `IsLawful` as a hypothesis.
use agentic_sdd_governance.Base.{
  ℕ, ◌≡◌, String, ◌<>◌, Bool, true, false, Option, some, ◌*◌, ◌/◌, eqb, if◌then◌else◌, ltb, Result,
  ok, err, type_error,
}
use Prim.Native.Char.{code}
use agentic_sdd_governance.Python.Value.{Value}

-- A `datetime`: whether it has a time zone, and its instant in microseconds (of local time where
-- it has none).
pub record DateTime : Type 0 where
  pub aware : Bool
  pub instant : ℕ

pub record Host : Type 0 where
  -- `datetime.fromisoformat(text)`; `none` is its `ValueError`
  pub fromisoformat : String → Option DateTime
  -- `value.replace(microsecond=0).isoformat().replace("+00:00", "Z")` of an instant in UTC
  pub stamp : ℕ → String
  -- `hashlib.sha256(json.dumps(value, sort_keys=True, …).encode()).hexdigest()`
  pub sha256_json : Value → String

-- `text.replace("Z", "+00:00")`
unfoldable pub replace_z : String → String
replace_z String.[] = ""
replace_z (String.◌∷◌ c s) =
    let rest = replace_z s in if eqb (code c) b'Z' then "+00:00" <> rest else String.◌∷◌ c rest

abbrev pub microseconds : ℕ
microseconds = 1000000

-- `a > b`; Python refuses to compare a time with a zone to one without.
unfoldable pub is_later : DateTime → DateTime → Result Bool
is_later a b = elim a.aware [
  | true ↦ elim b.aware [ true ↦ ok (ltb b.instant a.instant) | false ↦ err type_error ]
  | false ↦ elim b.aware [ true ↦ err type_error | false ↦ ok (ltb b.instant a.instant) ]
]

-- A stamp reads back as the instant that it shows, in UTC.
pub record IsLawful (h : Host) : Type 0 where
  pub stamp_reads :
      (t : ℕ)
      → h.fromisoformat (replace_z (h.stamp t))
        ≡ some (record { aware = true; instant = t / microseconds * microseconds })
