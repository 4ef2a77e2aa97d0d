-- ===== src/Governance/Project.antt =====
-- src/sddgov/governance.py: the files below `.sddgov`, and `emit_event`. A file is its JSON value,
-- `none` where there is no file. Operations run one after another: those that take a lock file do so
-- in any case; `claim_work` takes none and is modelled for calls that do not overlap. Input and
-- output errors are not modelled.
use agentic_sdd_governance.Base.{
  ℕ, String, Option, none, some, List, [], ◌∷◌, ◌++◌, any, ◌==◌, Result, ok, err, value_error, Exec,
  if◌then◌else◌,
}
use agentic_sdd_governance.Python.Value.{Value, obj, end, truthy}
use agentic_sdd_governance.Host.{Host, DateTime, replace_z}

pub record Event : Type 0 where
  pub event_type : String
  pub risk_level : String
  pub at : String
  pub payload : Value

pub record Project : Type 0 where
  pub project : Option Value
  pub claims : Option Value
  pub actions : Option Value
  pub decisions : Option Value
  pub events : List Event

-- `_read(path, default)`
abbrev pub read : Option Value → Value → Value
read none default = default
read (some v) default = v

abbrev pub risk_levels : List String
risk_levels = "L0" ∷ "L1" ∷ "L2" ∷ "L3" ∷ []

-- `datetime.fromisoformat(text.replace("Z", "+00:00"))`
unfoldable pub parse_time : Host → String → Result DateTime
parse_time h s = elim (h.fromisoformat (replace_z s)) [
  | none ↦ err (value_error "Invalid isoformat string")
  | some t ↦ ok t
]

unfoldable pub emit_event : Host → ℕ → String → String → Value → Exec Project Event
emit_event h now event_type risk payload p =
    let event : Event = record {
      event_type = event_type;
      risk_level = risk;
      at = h.stamp now;
      payload = if truthy payload then payload else obj end;
    } in
    if any (λ r. risk == r) risk_levels
    then (ok event, record p { events = p.events ++ (event ∷ []) })
    else (err (value_error "risk must be L0, L1, L2, or L3"), p)
