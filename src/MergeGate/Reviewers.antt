-- ===== src/MergeGate/Reviewers.antt =====
-- src/sddgov/merge_gate.py: `_trusted_reviewers` and `_external_trusted_reviewers`.
use agentic_sdd_governance.Base.{
  String, ◌<>◌, Bool, true, false, not, Option, none, some, [], ◌∷◌, if◌then◌else◌, ◌&&◌, Result,
  ok, err, value_error, ◌>>=◌, ◌>>◌, refuse,
}
use agentic_sdd_governance.Python.Value.{Value, arr, obj, cons, Fields, get, has_exactly, eq_str}
use agentic_sdd_governance.Python.Str.{is_empty}
use agentic_sdd_governance.MergeGate.Git.{Git, git}
use agentic_sdd_governance.MergeGate.Paths.{first_consumer_base}

-- The store outside the repository: the environment variable, whether the path that it names
-- resolves to one below the root, and the two ways to read it.
pub record External : Type 0 where
  pub variable : Option String
  pub is_inside : String → Bool
  pub load_control_plane_json : String → Result Fields
  pub load_owner_controlled_json : String → Result Fields

read_external : External → Bool → String → Result Fields
read_external ext separate source =
    if ext.is_inside source
    then err (value_error "out-of-band trusted reviewer store must be outside the repository")
    else if separate
    then ext.load_control_plane_json source
    else ext.load_owner_controlled_json source

-- `_external_trusted_reviewers`
unfoldable pub external_trusted_reviewers : External → Bool → Result Fields
unfolding read_external
external_trusted_reviewers ext separate = elim ext.variable [
  | none ↦ err (value_error "trusted reviewer bootstrap requires SDDGOV_TRUSTED_REVIEWERS_FILE")
  | some source ↦
      refuse (is_empty source) "trusted reviewer bootstrap requires SDDGOV_TRUSTED_REVIEWERS_FILE"
      >> read_external ext separate source
]

abbrev pub is_list : Value → Bool
is_list (arr vs) = true
is_list _ = false

-- `set(store) == {…}`, the version, and the list of reviewers.
unfoldable pub is_store : Fields → Bool
is_store store =
    has_exactly ("schema_version" ∷ "reviewers" ∷ []) store
    && eq_str (get "schema_version" store) "1.0"
    && is_list (get "reviewers" store)

-- The last part: a store that has reviewers is the authority.
unfoldable pub populated_or : External → Fields → Value → Result Fields
unfolding external_trusted_reviewers
populated_or ext store (arr (cons row rows)) = ok store
populated_or ext store _ = external_trusted_reviewers ext false

unfoldable pub use_base_store : External → Option Value → Result Fields
unfolding is_store populated_or
use_base_store ext none = err (value_error "trusted reviewer store at trusted base is invalid")
use_base_store ext (some (obj store)) =
    refuse (not (is_store store)) "trusted reviewer store at trusted base has an invalid contract"
    >> populated_or ext store (get "reviewers" store)
use_base_store ext (some v) =
    err (value_error "trusted reviewer store at trusted base has an invalid contract")

-- What follows the answer of Git.
unfoldable pub after_show :
    Git → (String → Option Value) → External → String → Result String → Result Fields
unfolding use_base_store external_trusted_reviewers
after_show run loads ext base_ref (ok text) = use_base_store ext (loads text)
after_show run loads ext base_ref (err (value_error m)) =
    first_consumer_base run base_ref >>= λ first.
    if first
    then external_trusted_reviewers ext true
    else err (value_error "trusted reviewer store is required at the trusted base")
after_show run loads ext base_ref (err e) = err e

-- `_trusted_reviewers`, where `loads` is `json.loads`, and `none` its refusal.
unfoldable pub trusted_reviewers : Git → (String → Option Value) → External → String → Result Fields
unfolding after_show
trusted_reviewers run loads ext base_ref =
    after_show run loads ext base_ref
      (git run ("show" ∷ (base_ref <> ":.sddgov/trusted-reviewers.json") ∷ []))
