-- ===== src/Autonomy/Reply.antt =====
-- src/sddgov/autonomy.py: the dicts that `evaluate_escalation` returns. Entries are in an order of
-- their own; a dict is the same whatever the order.
use agentic_sdd_governance.Base.{String, Bool, false}
use agentic_sdd_governance.Python.Value.{bool, str, arr, nil, cons, Fields, field}

abbrev pub reply : String → Bool → String → Fields → Fields
reply state requires_response reason more =
    field "state" (str state)
      (field "requires_response" (bool requires_response) (field "reason" (str reason) more))

-- `_continue`
abbrev pub go_on : String → String → Fields → Fields
go_on reason next_action more =
    reply "CONTINUE" false reason (field "next_action" (str next_action) more)

-- `_blocked`, and the blocked replies that are written out.
abbrev pub blocked : String → String → Fields → Fields
blocked reason next_action more =
    reply "BLOCKED" false reason (field "next_action" (str next_action) more)

-- `"required_risk_levels": [risk]`
abbrev pub requires_risk : String → Fields → Fields
requires_risk risk more = field "required_risk_levels" (arr (cons (str risk) nil)) more

abbrev pub boundary : Bool → Fields → Fields
boundary b more = field "reality_boundary" (bool b) more
