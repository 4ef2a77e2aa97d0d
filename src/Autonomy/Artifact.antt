-- ===== src/Autonomy/Artifact.antt =====
-- src/sddgov/autonomy.py: `lock_artifact` and `verify_artifact`.
pub mod Lock
use agentic_sdd_governance.Base.{
  ℕ, String, Bool, true, false, not, ◌&&◌, Option, none, some, List, [], ◌∷◌, Result, ok, err, Exn,
  value_error, file_not_found, ◌>>=◌, ◌>>◌, refuse, if◌then◌else◌,
}
use agentic_sdd_governance.Python.Text.{is_blank}
use agentic_sdd_governance.Python.Value.{
  Value, null, bool, int, pos, str, obj, Fields, field, end, get, has_exactly, eq_str,
}
use agentic_sdd_governance.Python.Equality.{py_eq}
use agentic_sdd_governance.Host.{Host}

-- The resolved artifact: its name, its size, and the digest of its bytes.
pub record Artifact : Type 0 where
  pub name : String
  pub size : ℕ
  pub sha256 : String

abbrev pub lock_of : Host → ℕ → String → Artifact → Fields
lock_of h now release_id a = field "schema_version" (str "1.0") (
    field "release_id" (str release_id) (
      field "artifact_name" (str a.name) (
        field "size" (int (pos a.size))
          (field "sha256" (str a.sha256) (field "created_at" (str (h.stamp now)) end)))))

-- `lock_artifact`: the lock that is written. `none` is a path that is no file.
unfoldable pub lock_artifact : Host → ℕ → String → Option Artifact → Result Value
lock_artifact h now release_id none = err file_not_found
lock_artifact h now release_id (some a) =
    refuse (is_blank release_id) "release_id must not be blank"
    >> ok (obj (lock_of h now release_id a))

-- The answer: whether the artifact is the locked one, and the release that the lock names.
pub record Integrity : Type 0 where
  pub matches : Bool
  pub release_id : Value

unfoldable pub check_lock : Artifact → Fields → Result Integrity
check_lock a lock =
    refuse
      (not (
        has_exactly
          ("schema_version" ∷ "release_id" ∷ "artifact_name" ∷ "size" ∷ "sha256" ∷ "created_at"
            ∷ [])
          lock
        && eq_str (get "schema_version" lock) "1.0"))
      "artifact lock has an invalid contract"
    >> ok (record {
      matches =
          eq_str (get "artifact_name" lock) a.name
          && py_eq (get "size" lock) (int (pos a.size))
          && eq_str (get "sha256" lock) a.sha256;
      release_id = get "release_id" lock;
    })

-- `verify_artifact`, on the content of the lock file.
unfoldable pub verify_artifact : Option Artifact → Option Value → Result Integrity
unfolding check_lock
verify_artifact none lock = err file_not_found
verify_artifact (some a) (some (obj lock)) = check_lock a lock
verify_artifact (some a) _ = err (value_error "artifact lock is invalid")
