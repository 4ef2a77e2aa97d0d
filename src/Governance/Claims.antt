-- ===== src/Governance/Claims.antt =====
-- src/sddgov/governance.py: `claim_work`.
pub mod Exclusive
use agentic_sdd_governance.Base.{
  ℕ, ◌+◌, ◌*◌, String, ◌<>◌, Bool, true, false, not, ◌&&◌, Option, none, some, List, [], ◌∷◌, ◌++◌,
  Result, ok, err, value_error, attribute_error, Exec, after, ◌>>=◌, ◌>>◌, refuse, if◌then◌else◌,
}
use agentic_sdd_governance.Python.Value.{
  ℤ, Value, str, arr, obj, nil, Fields, end, field, put, of_list, eq_str,
}
use agentic_sdd_governance.Python.Access.{subscript, iterate, in_range, magnitude}
use agentic_sdd_governance.Host.{Host, DateTime, is_later, microseconds}
use agentic_sdd_governance.Governance.Project.{Project, read, parse_time, emit_event}

-- `claim["expires_at"].replace(…)`: only a text has the method.
unfoldable pub expiry_of : Host → Value → Result DateTime
expiry_of h (str s) = parse_time h s
expiry_of h _ = err attribute_error

-- The test of the loop: `expiry > current and claim["status"] == "active"`.
unfoldable pub is_active : Host → ℕ → Value → Result Bool
unfolding expiry_of
is_active h now claim = do
  expires_at ← subscript claim "expires_at"
  expiry ← expiry_of h expires_at
  later ← is_later expiry (record { aware = true; instant = now })
  if later then (do status ← subscript claim "status"; ok (eq_str status "active")) else ok false

-- The loop that fills `active`.
unfoldable pub active_claims : Host → ℕ → List Value → Result (List Value)
active_claims h now [] = ok []
active_claims h now (claim ∷ claims) = do
  live ← is_active h now claim
  rest ← active_claims h now claims
  ok (if live then claim ∷ rest else rest)

-- `any(row["work_package"] == work_package for row in active)`
unfoldable pub has_claim : String → List Value → Result Bool
has_claim work_package [] = ok false
has_claim work_package (row ∷ rows) = do
  name ← subscript row "work_package"
  if eq_str name work_package then ok true else has_claim work_package rows

abbrev pub no_claims : Value
no_claims = obj (field "schema_version" (str "1.0") (field "claims" (arr nil) end))

-- `stamp(current + timedelta(minutes=ttl_minutes))`
abbrev pub minutes : ℕ → ℕ
minutes n = n * 60 * microseconds

abbrev pub new_claim : Host → String → String → ℕ → ℕ → Value
new_claim h work_package agent ttl now = obj (
    field "work_package" (str work_package) (
      field "agent" (str agent) (
        field "status" (str "active") (
          field "claimed_at" (str (h.stamp now))
            (field "expires_at" (str (h.stamp (now + minutes ttl))) end)))))

-- `data["claims"] = rows`
abbrev pub with_claims : Value → List Value → Value
with_claims (obj d) rows = obj (put "claims" (arr (of_list rows)) d)
with_claims v rows = v

-- All that is computed before the write: the new claim, and the new content of the file.
unfoldable pub plan_claim : Host → String → String → ℤ → ℕ → Value → Result (Value × Value)
unfolding active_claims has_claim
plan_claim h work_package agent ttl now store = do
  refuse (not (in_range 1 1440 ttl)) "ttl_minutes must be between 1 and 1440"
  rows ← subscript store "claims"
  claims ← iterate rows
  active ← active_claims h now claims
  taken ← has_claim work_package active
  refuse taken ("work package already has an active claim: " <> work_package)
  let claim = new_claim h work_package agent (magnitude ttl) now
  ok (claim, with_claims store (active ++ (claim ∷ [])))

unfoldable pub commit_claim : Host → ℕ → Value × Value → Exec Project Value
commit_claim h now (claim, store) p =
    let (event, p') =
      emit_event h now "work_claimed" "L0" claim (record p { claims = some store }) in
    after (event, p') (λ _ q. (ok claim, q))

unfoldable pub claim_work : Host → String → String → ℤ → ℕ → Exec Project Value
unfolding plan_claim commit_claim
claim_work h work_package agent ttl now p =
    after (plan_claim h work_package agent ttl now (read p.claims no_claims), p)
      (commit_claim h now)
