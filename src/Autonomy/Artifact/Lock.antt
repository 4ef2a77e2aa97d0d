-- ===== src/Autonomy/Artifact/Lock.antt =====
-- src/sddgov/autonomy.py: a lock that `lock_artifact` writes, read by `verify_artifact`.
use Prim.Native.Nat.{◌*◌}
use agentic_sdd_governance.Base.{
  ℕ, ◌≡◌, refl, subst, String, Bool, true, ◌&&◌, some, ok, arith, ◌==◌, eq_iff, eqb, ok-injective,
  eq_refl, both, ◌↔◌, refuse, >>=-eq-ok,
}
use agentic_sdd_governance.Python.Text.{is_blank}
use agentic_sdd_governance.Python.Value.{
  Value, str, get, lookup, has, has_all, keys_within, has_exactly,
}
use agentic_sdd_governance.Python.Equality.{py_eq}
use agentic_sdd_governance.Host.{Host}
use agentic_sdd_governance.Autonomy.Artifact.{
  Artifact, Integrity, check_lock, lock_artifact, verify_artifact,
}

-- The test of a lock against an artifact.
abbrev is_same : Artifact → Artifact → Bool
is_same a b = a.name == b.name && eqb (a.size * 1) (b.size * 1) && a.sha256 == b.sha256

is_same_iff : (a b : Artifact) → (is_same a b ≡ true) ↔ (a ≡ b)
is_same_iff a b = (same, λ e. subst (λ c. is_same a c ≡ true) e (is_same_refl a))
  where
    is_same_refl : (c : Artifact) → is_same c c ≡ true
    is_same_refl c = ground (arith, eq_refl c.name, eq_refl c.sha256)

    artifact : a.name ≡ b.name → a.size ≡ b.size → a.sha256 ≡ b.sha256 → a ≡ b
    artifact n s d = cc

    eqb→eq_one : (m n : ℕ) → eqb (m * 1) (n * 1) ≡ true → m ≡ n
    eqb→eq_one m n h = ground arith

    same : is_same a b ≡ true → a ≡ b
    same h =
        let (ns, digest) =
          both (a.name == b.name && eqb (a.size * 1) (b.size * 1)) (a.sha256 == b.sha256) h in
        let (name, size) = both (a.name == b.name) (eqb (a.size * 1) (b.size * 1)) ns in
        artifact ((eq_iff a.name b.name).0 name) (eqb→eq_one a.size b.size size)
          ((eq_iff a.sha256 b.sha256).0 digest)

-- The lock of an artifact is readable, names its release, and matches an artifact exactly if that
-- has the same name, size and digest.
pub verify_artifact-lock_artifact :
    (h : Host) (now : ℕ) (release_id : String) (a b : Artifact) (lock : Value)
    → lock_artifact h now release_id (some a) ≡ ok lock
    → (answer : Integrity) × (verify_artifact (some b) (some lock) ≡ ok answer)
      × ((answer.matches ≡ true) ↔ (a ≡ b))
      × (answer.release_id ≡ str release_id)
unfolding lock_artifact verify_artifact check_lock py_eq get lookup has_exactly has has_all
    keys_within
verify_artifact-lock_artifact h now release_id a b lock e =
    let (u, e1, e2) = >>=-eq-ok (refuse (is_blank release_id) "release_id must not be blank") _ e in
    subst
      (λ l.
        (answer : Integrity) × (verify_artifact (some b) (some l) ≡ ok answer)
        × ((answer.matches ≡ true) ↔ (a ≡ b))
        × (answer.release_id ≡ str release_id))
      (ok-injective e2)
      (record { matches = is_same a b; release_id = str release_id }, refl, is_same_iff a b, refl)
