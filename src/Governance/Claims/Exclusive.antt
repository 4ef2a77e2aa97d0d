-- ===== src/Governance/Claims/Exclusive.antt =====
-- src/sddgov/governance.py: claims of one work package, one after another.
use mathlib.Core.Bool.{false≢true}
use agentic_sdd_governance.Base.{
  ℕ, ◌+◌, ◌*◌, ◌/◌, ◌<◌, ◌≡◌, ◌≢◌, refl, sym, ap, ◌∙◌, String, ◌<>◌, Bool, true, false, not, some,
  List, [], ◌∷◌, ◌++◌, Result, ok, err, Exn, after-eq-ok, after-keeps, All, ◌⊎◌, inl, inr, subst,
  ◌>>=◌, >>=-eq-ok, refuse, refuse-eq-ok, ok-injective, if◌then◌else◌, eq_refl, lt→ltb,
}
use agentic_sdd_governance.Python.Value.{ℤ, Value, str, arr, obj, lookup, of_list, eq_str}
use agentic_sdd_governance.Python.Laws.{to_list-of_list, lookup-put}
use agentic_sdd_governance.Python.Access.{subscript, iterate, in_range, magnitude}
use agentic_sdd_governance.Host.{Host, IsLawful, is_later, microseconds}
use agentic_sdd_governance.Governance.Project.{Project, read, parse_time, emit_event}
use agentic_sdd_governance.Governance.Claims.{
  expiry_of, is_active, active_claims, has_claim, no_claims, minutes, new_claim, with_claims,
  plan_claim, commit_claim, claim_work,
}

-- One of the rows is this claim.
abbrev Has : Value → List Value → Type 0
Has claim [] = ⊥
Has claim (row ∷ rows) = (row ≡ claim) ⊎ Has claim rows

Has-last : (front : List Value) (claim : Value) → Has claim (front ++ (claim ∷ []))
Has-last [] claim = inl refl
Has-last (row ∷ front) claim = inr (Has-last front claim)

Has-front :
    (front : List Value) (claim new : Value) → Has claim front → Has claim (front ++ (new ∷ []))
Has-front [] claim new h = absurd h
Has-front (row ∷ front) claim new (inl same) = inl same
Has-front (row ∷ front) claim new (inr h) = inr (Has-front front claim new h)

kept_first :
    (b : Bool) (row claim : Value) (rest : List Value)
    → b ≡ true
    → row ≡ claim
    → Has claim (if b then row ∷ rest else rest)
kept_first true row claim rest live same = inl same
kept_first false row claim rest live same = cc

kept_later :
    (b : Bool) (row claim : Value) (rest : List Value)
    → Has claim rest
    → Has claim (if b then row ∷ rest else rest)
kept_later true row claim rest h = inr h
kept_later false row claim rest h = h

-- A claim that is active stays among the active ones.
active_claims-Has :
    (h : Host) (now : ℕ) (claims : List Value) (claim : Value) {active : List Value}
    → is_active h now claim ≡ ok true
    → Has claim claims
    → active_claims h now claims ≡ ok active
    → Has claim active
unfolding active_claims
active_claims-Has h now [] claim live here e = absurd here
active_claims-Has h now (first ∷ claims) claim live here e =
    let (b, e1, e2) =
      >>=-eq-ok (is_active h now first)
        (λ live. active_claims h now claims >>= λ rest. ok (if live then first ∷ rest else rest))
        e in
    let (rest, e3, e4) =
      >>=-eq-ok (active_claims h now claims) (λ rest. ok (if b then first ∷ rest else rest)) e2 in
    subst (Has claim) (ok-injective e4) (elim here [
      | inl same ↦
          kept_first b first claim rest (ok-injective (sym e1 ∙ ap (is_active h now) same ∙ live))
            same
      | inr later ↦
          kept_later b first claim rest (active_claims-Has h now claims claim live later e3)
    ])

found_or :
    (here : Bool) (rest : Result Bool) {taken : Bool}
    → (if here then ok true else rest) ≡ ok taken
    → (rest ≡ ok taken → taken ≡ true)
    → taken ≡ true
found_or true rest e later = sym (ok-injective e)
found_or false rest e later = later e

found_here :
    (here : Bool) (rest : Result Bool) {taken : Bool}
    → here ≡ true
    → (if here then ok true else rest) ≡ ok taken
    → taken ≡ true
found_here true rest h e = sym (ok-injective e)
found_here false rest h e = cc

-- Where a claim of the package is among the rows, the test of the package holds if it returns.
has_claim-Has :
    (name : String) (rows : List Value) (claim : Value) {taken : Bool}
    → subscript claim "work_package" ≡ ok (str name)
    → Has claim rows
    → has_claim name rows ≡ ok taken
    → taken ≡ true
unfolding has_claim
has_claim-Has name [] claim named here e = absurd here
has_claim-Has name (row ∷ rows) claim named here e =
    let (v, e1, e2) =
      >>=-eq-ok (subscript row "work_package")
        (λ v. if eq_str v name then ok true else has_claim name rows) e in
    elim here [
      | inl same ↦
          found_here (eq_str v name) (has_claim name rows)
            (ap (λ w. eq_str w name)
                (ok-injective (sym e1 ∙ ap (λ r. subscript r "work_package") same ∙ named))
              ∙ eq_refl name)
            e2
      | inr later ↦
          found_or (eq_str v name) (has_claim name rows) e2
            (has_claim-Has name rows claim named later)
    ]

stamp-parses :
    (h : Host) (time : ℕ)
    → IsLawful h
    → parse_time h (h.stamp time)
      ≡ ok (record { aware = true; instant = time / microseconds * microseconds })
unfolding parse_time
stamp-parses h time law = rw (law.stamp_reads time, parse_time)

new_claim-is_active :
    (h : Host) (name agent : String) (ttl now later : ℕ)
    → IsLawful h
    → later < (now + minutes ttl) / microseconds * microseconds
    → is_active h later (new_claim h name agent ttl now) ≡ ok true
unfolding is_active expiry_of subscript lookup is_later
new_claim-is_active h name agent ttl now later law soon = rw (
  stamp-parses h (now + minutes ttl) law,
  lt→ltb later ((now + minutes ttl) / microseconds * microseconds) soon,
)

err-ok : {A : Type 0} {e : Exn} {a : A} → ¬ (err e ≡ ok a)
err-ok h = cc

-- The list that is read back from the new content of the file.
with_claims-rows :
    (store v : Value) (rows : List Value)
    → subscript store "claims" ≡ ok v
    → subscript (with_claims store rows) "claims" ≡ ok (arr (of_list rows))
unfolding subscript
with_claims-rows (obj d) v rows e =
    rw (lookup-put "claims" "claims" (arr (of_list rows)) d, subscript)
with_claims-rows _ v rows e = absurd (err-ok e)

-- What a plan that succeeds has computed.
plan_claim-cases :
    (h : Host) (name agent : String) (ttl : ℤ) (now : ℕ) (store : Value) {claim content : Value}
    → plan_claim h name agent ttl now store ≡ ok (claim, content)
    → (v : Value) × (rows active : List Value) × (subscript store "claims" ≡ ok v)
      × (iterate v ≡ ok rows)
      × (active_claims h now rows ≡ ok active)
      × (has_claim name active ≡ ok false)
      × (content ≡ with_claims store (active ++ (new_claim h name agent (magnitude ttl) now ∷ [])))
unfolding plan_claim
plan_claim-cases h name agent ttl now store e =
    let (u, e1, f1) =
      >>=-eq-ok (refuse (not (in_range 1 1440 ttl)) "ttl_minutes must be between 1 and 1440") _ e in
    let (v, e2, f2) = >>=-eq-ok (subscript store "claims") _ f1 in
    let (rows, e3, f3) = >>=-eq-ok (iterate v) _ f2 in
    let (active, e4, f4) = >>=-eq-ok (active_claims h now rows) _ f3 in
    let (taken, e5, f5) = >>=-eq-ok (has_claim name active) _ f4 in
    let (u', e6, f6) =
      >>=-eq-ok (refuse taken ("work package already has an active claim: " <> name)) _ f5 in
    let free = refuse-eq-ok taken ("work package already has an active claim: " <> name) e6 in
    (v, rows, active, e2, e3, e4, e5 ∙ ap ok free, ap (λ x. x.1) (ok-injective (sym f6)))

commit_claim-content :
    (h : Host) (now : ℕ) (claim content : Value) (p : Project)
    → (commit_claim h now (claim, content) p).1.claims ≡ some content
unfolding commit_claim emit_event
commit_claim-content h now claim content p = refl

commit_claim-store :
    (h : Host) (now : ℕ) (claim content : Value) (p : Project) {q : Project} {answer : Value}
    → commit_claim h now (claim, content) p ≡ (ok answer, q)
    → q.claims ≡ some content
unfolding commit_claim emit_event
commit_claim-store h now claim content p e = ap (λ x. x.1.claims) (sym e)

-- The file has this claim among its rows.
IsClaimed : Value → Project → Type 0
IsClaimed mine p =
    (content : Value) × (rows : List Value) × (p.claims ≡ some content)
    × (subscript content "claims" ≡ ok (arr (of_list rows)))
    × Has mine rows

-- The claim that is granted is written.
claim_work-new :
    (h : Host) (name agent : String) (ttl : ℤ) (now : ℕ) (p : Project) {q : Project} {claim : Value}
    → claim_work h name agent ttl now p ≡ (ok claim, q)
    → IsClaimed (new_claim h name agent (magnitude ttl) now) q
unfolding claim_work IsClaimed
claim_work-new h name agent ttl now p e =
    let ((claim0, content), plan, run) =
      after-eq-ok (plan_claim h name agent ttl now (read p.claims no_claims)) p (commit_claim h now)
        (ap (λ x. x.0) e) in
    let (v, rows, active, read_v, read_rows, _, _, written) =
      plan_claim-cases h name agent ttl now (read p.claims no_claims) plan in
    let mine = new_claim h name agent (magnitude ttl) now in
    (
      content,
      active ++ (mine ∷ []),
      commit_claim-store h now claim0 content p (sym run ∙ e),
      (ap (λ c. subscript c "claims") written
          ∙ with_claims-rows (read p.claims no_claims) v (active ++ (mine ∷ [])) read_v),
      Has-last active mine,
    )

-- The rows that a plan reads from a file that has this claim.
rows_read :
    (h : Host) (now : ℕ) (p : Project) (mine v : Value) (rows active : List Value)
    → IsClaimed mine p
    → is_active h now mine ≡ ok true
    → subscript (read p.claims no_claims) "claims" ≡ ok v
    → iterate v ≡ ok rows
    → active_claims h now rows ≡ ok active
    → Has mine active
unfolding IsClaimed iterate
rows_read h now p mine v rows active (content, old, kept, stored, here) live read_v read_rows act =
    let read_old : ok v ≡ ok (arr (of_list old)) =
      sym read_v ∙ ap (λ c. subscript (read c no_claims) "claims") kept ∙ stored in
    let same =
      ok-injective (sym read_rows ∙ ap iterate (ok-injective read_old)) ∙ to_list-of_list old in
    active_claims-Has h now rows mine live (subst (Has mine) (sym same) here) act

-- Another claim, granted or not, leaves it there while it is active.
claim_work-keeps :
    (h : Host) (name agent : String) (ttl : ℤ) (now : ℕ) (p : Project) (mine : Value)
    → is_active h now mine ≡ ok true
    → IsClaimed mine p
    → IsClaimed mine (claim_work h name agent ttl now p).1
unfolding claim_work IsClaimed
claim_work-keeps h name agent ttl now p mine live held =
    after-keeps (IsClaimed mine) (plan_claim h name agent ttl now (read p.claims no_claims)) p
      (commit_claim h now) held
      (λ (claim, content) plan.
        let (v, rows, active, read_v, read_rows, act, _, written) =
          plan_claim-cases h name agent ttl now (read p.claims no_claims) plan in
        let new = new_claim h name agent (magnitude ttl) now in
        (
          content,
          active ++ (new ∷ []),
          commit_claim-content h now claim content p,
          (ap (λ c. subscript c "claims") written
              ∙ with_claims-rows (read p.claims no_claims) v (active ++ (new ∷ [])) read_v),
          Has-front active mine new
              (rows_read h now p mine v rows active held live read_v read_rows act),
        ))

-- No claim of the package is granted while the file has this one.
claim_work-taken :
    (h : Host) (name agent : String) (ttl : ℤ) (now : ℕ) (p : Project) (mine : Value) {r : Project}
    {again : Value}
    → is_active h now mine ≡ ok true
    → subscript mine "work_package" ≡ ok (str name)
    → IsClaimed mine p
    → claim_work h name agent ttl now p ≢ (ok again, r)
unfolding claim_work
claim_work-taken h name agent ttl now p mine live named held e =
    let (x, plan, _) =
      after-eq-ok (plan_claim h name agent ttl now (read p.claims no_claims)) p (commit_claim h now)
        (ap (λ y. y.0) e) in
    let (v, rows, active, read_v, read_rows, act, free, _) =
      plan_claim-cases h name agent ttl now (read p.claims no_claims) plan in
    let here = rows_read h now p mine v rows active held live read_v read_rows act in
    absurd (false≢true (has_claim-Has name active mine named here free))

-- A call of `claim_work`.
pub record Call : Type 0 where
  pub work_package : String
  pub agent : String
  pub ttl : ℤ
  pub at : ℕ

-- The project after some calls, each of which may be granted or refused.
abbrev pub after_calls : Host → List Call → Project → Project
after_calls h [] p = p
after_calls h (c ∷ calls) p =
    after_calls h calls (claim_work h c.work_package c.agent c.ttl c.at p).1

after_calls-IsClaimed :
    (h : Host) (calls : List Call) (p : Project) (mine : Value)
    → All (λ c. is_active h c.at mine ≡ ok true) calls
    → IsClaimed mine p
    → IsClaimed mine (after_calls h calls p)
after_calls-IsClaimed h [] p mine live held = held
after_calls-IsClaimed h (c ∷ calls) p mine (now, later) held =
    after_calls-IsClaimed h calls (claim_work h c.work_package c.agent c.ttl c.at p).1 mine later
      (claim_work-keeps h c.work_package c.agent c.ttl c.at p mine now held)

-- The whole second at which a claim expires.
abbrev pub expiry : ℕ → ℤ → ℕ
expiry now ttl = (now + minutes (magnitude ttl)) / microseconds * microseconds

new_claim-All :
    (h : Host) (name agent : String) (ttl : ℤ) (now : ℕ) (calls : List Call)
    → IsLawful h
    → All (λ c. c.at < expiry now ttl) calls
    → All (λ c. is_active h c.at (new_claim h name agent (magnitude ttl) now) ≡ ok true) calls
new_claim-All h name agent ttl now [] law soon = tt
new_claim-All h name agent ttl now (c ∷ calls) law (first, later) = (
  new_claim-is_active h name agent (magnitude ttl) now c.at law first,
  new_claim-All h name agent ttl now calls law later,
)

-- While a claim of a work package has not expired, no claim of that package is granted, to
-- whomever, whatever other claims of any packages have been granted or refused since, by calls one
-- after another; the claim expires at the whole second that its stamp shows. The stamps of the host
-- must read back.
pub claim_work-exclusive :
    (h : Host) (name agent agent' : String) (ttl ttl' : ℤ) (now later : ℕ) (calls : List Call)
    (p : Project) {q r : Project} {claim again : Value}
    → IsLawful h
    → claim_work h name agent ttl now p ≡ (ok claim, q)
    → All (λ c. c.at < expiry now ttl) calls
    → later < expiry now ttl
    → claim_work h name agent' ttl' later (after_calls h calls q) ≢ (ok again, r)
unfolding subscript lookup
claim_work-exclusive h name agent agent' ttl ttl' now later calls p {q} law e since soon =
    let mine = new_claim h name agent (magnitude ttl) now in
    claim_work-taken h name agent' ttl' later (after_calls h calls q) mine
      (new_claim-is_active h name agent (magnitude ttl) now later law soon) refl
      (after_calls-IsClaimed h calls q mine (new_claim-All h name agent ttl now calls law since)
        (claim_work-new h name agent ttl now p e))
