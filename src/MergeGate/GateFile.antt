-- ===== src/MergeGate/GateFile.antt =====
-- src/sddgov/merge_gate.py: what `verify_merge` reads from the gate file.
use agentic_sdd_governance.Base.{
  ◌≡◌, refl, sym, ap, ◌∙◌, String, Bool, true, false, not, ◌&&◌, ◌||◌, List, [], ◌∷◌, map, any,
  arith, ok, refuse, refuse-eq-ok, Ensures, Ensures-bind,
}
use agentic_sdd_governance.Python.Value.{
  Value, null, bool, int, float, str, arr, obj, Items, nil, cons, to_list, of_list, Fields, get,
  has_exactly, is_text, eq_str,
}
use agentic_sdd_governance.Python.Laws.{eq_str-eq}
use agentic_sdd_governance.Python.Str.{is_empty}
use agentic_sdd_governance.Governance.Actions.Row.{check_member}
use agentic_sdd_governance.MergeGate.Paths.{Files, bounded_repository_path}
use agentic_sdd_governance.MergeGate.Rollback.{text_at}
use agentic_sdd_governance.MergeGate.Verify.{
  check_gate, gate_fields, risk_levels, is_bad_item, item_text, check_items,
}

text_of : Value → String
text_of (str s) = s
text_of _ = ""

pub passed : (b : Bool) (message : String) {u : Unit {0}} → refuse (not b) message ≡ ok u → b ≡ true
passed true message h = refl
passed false message h = cc

pub empty_of : (s : String) → is_empty s ≡ true → s ≡ ""
empty_of String.[] h = refl
empty_of (String.◌∷◌ c s) h = cc

is_text-eq : (v : Value) → is_text v ≡ true → v ≡ str (text_of v)
unfolding is_text text_of
is_text-eq null h = cc
is_text-eq (bool b) h = cc
is_text-eq (int n) h = cc
is_text-eq (float n s) h = cc
is_text-eq (str s) h = refl
is_text-eq (arr items) h = cc
is_text-eq (obj d) h = cc

text_of-eq : (v : Value) → elim v [ str s ↦ s | _ ↦ "" ] ≡ text_of v
unfolding text_of
text_of-eq null = refl
text_of-eq (bool b) = refl
text_of-eq (int n) = refl
text_of-eq (float n s) = refl
text_of-eq (str s) = refl
text_of-eq (arr items) = refl
text_of-eq (obj d) = refl

text_at-eq : (name : String) (fields : Fields) → text_at name fields ≡ text_of (get name fields)
unfolding text_at
text_at-eq name fields = text_of-eq (get name fields)

bounded-str :
    (files : Files) (v : Value) (label : String) {path : List String}
    → bounded_repository_path files v label ≡ ok path
    → v ≡ str (text_of v)
unfolding bounded_repository_path text_of
bounded-str files null label h = cc
bounded-str files (bool b) label h = cc
bounded-str files (int n) label h = cc
bounded-str files (float n s) label h = cc
bounded-str files (str s) label h = refl
bounded-str files (arr items) label h = cc
bounded-str files (obj d) label h = cc

-- A field that has been taken for a path is a text.
pub bounded-text_at :
    (files : Files) (name : String) (gate : Fields) (label : String) {path : List String}
    → bounded_repository_path files (get name gate) label ≡ ok path
    → get name gate ≡ str (text_at name gate)
bounded-text_at files name gate label h =
    bounded-str files (get name gate) label h ∙ ap str (sym (text_at-eq name gate))

-- The file is of this base, and names this head as the reviewed one.
abbrev pub Names : Fields → String → String → Type 0
Names gate base_sha reviewed_head_sha =
    (get "base_sha" gate ≡ str base_sha) × (get "head_sha" gate ≡ str reviewed_head_sha)

pub check_gate-Names :
    (base_sha : String) (gate : Fields) → Ensures (Names gate base_sha) (check_gate base_sha gate)
unfolding check_gate
check_gate-Names base_sha gate =
    let P = Names gate base_sha in
    Ensures-bind P
      (refuse (not (has_exactly gate_fields gate) || not (eq_str (get "schema_version" gate) "1.0"))
        "merge gate has an invalid contract")
      _
      (λ _ _.
        Ensures-bind P
          (check_member (get "risk_level" gate) risk_levels "merge gate risk_level is invalid") _
          (λ _ _.
            Ensures-bind P
              (refuse (not (eq_str (get "base_sha" gate) base_sha))
                "merge gate base_sha does not match the trusted exact base")
              _
              (λ _ same.
                Ensures-bind P
                  (refuse (not (is_text (get "head_sha" gate))) "merge gate head_sha is required") _
                  (λ _ named. (
                    eq_str-eq (get "base_sha" gate) base_sha
                        (passed (eq_str (get "base_sha" gate) base_sha) _ same),
                    is_text-eq (get "head_sha" gate)
                          (passed (is_text (get "head_sha" gate)) _ named)
                        ∙ ap str (sym (text_at-eq "head_sha" gate)),
                  )))))

any_mapped {ℓ} :
    {A B : Type ℓ} (f : A → B) (xs : List A) → any (λ y. true) (map f xs) ≡ any (λ x. true) xs
any_mapped f [] = refl
any_mapped f (x ∷ xs) = refl

-- The file lists these DEPs, and at least one where the change is of more than the lowest risk.
abbrev pub Lists : Fields → Value → List String → Type 0
Lists gate v deps =
    (v ≡ arr (of_list (map str deps)))
    × ((eq_str (get "risk_level" gate) "L0" || any (λ dep. true) deps) ≡ true)

item_text-eq : (v : Value) → is_bad_item v ≡ false → v ≡ str (item_text v)
unfolding is_bad_item item_text
item_text-eq null h = cc
item_text-eq (bool b) h = cc
item_text-eq (int n) h = cc
item_text-eq (float n s) h = cc
item_text-eq (str s) h = refl
item_text-eq (arr items) h = cc
item_text-eq (obj d) h = cc

or_false_both : (a b : Bool) → (a || b) ≡ false → (a ≡ false) × (b ≡ false)
or_false_both a b h = ground arith

items-eq :
    (items : Items)
    → any is_bad_item (to_list items) ≡ false
    → items ≡ of_list (map str (map item_text (to_list items)))
items-eq nil h = refl
items-eq (cons v items) h =
    let (good, others) = or_false_both (is_bad_item v) (any is_bad_item (to_list items)) h in
    ap (λ w. cons w items) (item_text-eq v good)
    ∙ ap (cons (str (item_text v))) (items-eq items others)

pub check_items-Lists : (gate : Fields) (v : Value) → Ensures (Lists gate v) (check_items gate v)
unfolding check_items
check_items-Lists gate null = tt
check_items-Lists gate (bool b) = tt
check_items-Lists gate (int n) = tt
check_items-Lists gate (float n s) = tt
check_items-Lists gate (str s) = tt
check_items-Lists gate (obj d) = tt
check_items-Lists gate (arr items) =
    let P = Lists gate (arr items) in
    Ensures-bind P
      (refuse (any is_bad_item (to_list items)) "merge gate deps must be a string array") _
      (λ _ good.
        Ensures-bind P
          (refuse
            (not (eq_str (get "risk_level" gate) "L0") && not (any (λ item. true) (to_list items)))
            "L1-L3 Merge requires at least one strict DEP")
          _
          (λ _ e.
            let enough =
              refuse-eq-ok
                (not (eq_str (get "risk_level" gate) "L0")
                  && not (any (λ item. true) (to_list items)))
                _ e in
            (
              ap arr (items-eq items (refuse-eq-ok (any is_bad_item (to_list items)) _ good)),
              rw (any_mapped item_text (to_list items)) (ground arith),
            )))
