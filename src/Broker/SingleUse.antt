-- ===== src/Broker/SingleUse.antt =====
-- src/sddgov/broker.py: a nonce that was consumed, and the requests that follow.
use agentic_sdd_governance.Base.{
  ◌≡◌, ◌≢◌, refl, sym, ap, ◌∙◌, String, Bool, true, false, List, [], ◌∷◌, ◌++◌, ok, subst,
  ok-injective, after-eq-ok, >>=-eq-ok, if◌then◌else◌,
}
use mathlib.Core.Bool.{false≢true}
use agentic_sdd_governance.Broker.Medium.{Medium, IsLawful, ledger_record}
use agentic_sdd_governance.Broker.Ledger.{
  Env, Written, synced, failed, contains, scan, open_ledger, write_line, check_consume, consume,
}
use agentic_sdd_governance.Broker.Daemon.{Client, handle_connection}
use agentic_sdd_governance.Broker.Scan.{IsSpent, IsSpent-append, IsSpent-record}
use agentic_sdd_governance.Broker.Append.{Extends, handle_connection-Extends, extends}

module _ (M : Medium) where
  -- The ledger after a history of connections.
  abbrev pub serve_all : List (Env × Client) → List M.Line → List M.Line
  serve_all [] lines = lines
  serve_all ((e, c) ∷ rest) lines = serve_all rest (handle_connection M e c lines).1

  IsSpent-Extends :
      (n : String) (lines lines' : List M.Line)
      → IsSpent M n lines
      → Extends M lines lines'
      → IsSpent M n lines'
  IsSpent-Extends n lines lines' spent (extends more e) =
      subst (IsSpent M n) (sym e) (IsSpent-append M n lines more spent)

  IsSpent-serve_all :
      (n : String) (history : List (Env × Client)) (lines : List M.Line)
      → IsSpent M n lines
      → IsSpent M n (serve_all history lines)
  IsSpent-serve_all n [] lines spent = spent
  IsSpent-serve_all n ((e, c) ∷ rest) lines spent =
      IsSpent-serve_all n rest _
        (IsSpent-Extends n lines _ spent (handle_connection-Extends M e c lines))

  check_consume-scan :
      (e : Env) (line : M.Line) (lines : List M.Line) {s : List String}
      → check_consume M e line lines ≡ ok s
      → scan M lines ≡ ok s
  unfolding check_consume
  check_consume-scan e line lines h =
      let (u, _, h') = >>=-eq-ok (open_ledger M e) _ h in
      let (v, _, h'') = >>=-eq-ok _ (λ _. scan M lines) h' in h''

  -- What `consume` has done when it says that the nonce is consumed.
  pub record HasConsumed (e : Env) (n r p : String) (lines : List M.Line) : Type 0 where
    pub written :
        (consume M e n r p lines).1 ≡ lines ++ (M.dumps (ledger_record n r p e.stamp) ∷ [])
    pub seen : List String
    pub scanned : scan M lines ≡ ok seen
    pub was_new : contains n seen ≡ false

  write_line-true :
      (w : Written) (line : M.Line) (lines : List M.Line)
      → (write_line M w line lines).0 ≡ ok true
      → (write_line M w line lines).1 ≡ lines ++ (line ∷ [])
  unfolding write_line
  write_line-true synced line lines h = refl
  write_line-true (failed k) line lines h = cc

  if-consumed :
      (b : Bool) (w : Written) (line : M.Line) (lines : List M.Line)
      → ((if b then (λ (l : List M.Line). (ok false, l)) else write_line M w line) lines).0
        ≡ ok true
      → (b ≡ false) × ((write_line M w line lines).0 ≡ ok true)
  if-consumed true w line lines h = absurd (false≢true (ok-injective h))
  if-consumed false w line lines h = (refl, h)

  pub consume-HasConsumed :
      (e : Env) (n r p : String) (lines : List M.Line)
      → (consume M e n r p lines).0 ≡ ok true
      → HasConsumed e n r p lines
  unfolding consume
  consume-HasConsumed e n r p lines h =
      let line = M.dumps (ledger_record n r p e.stamp) in
      let (seen, checked, runs) =
        after-eq-ok (check_consume M e line lines) lines
          (λ s. if contains n s then (λ l. (ok false, l)) else write_line M e.write line) h in
      let (fresh, wrote) =
        if-consumed (contains n seen) e.write line lines (subst (λ z. z.0 ≡ ok true) runs h) in
      record {
        written = ap (λ z. z.1) runs ∙ rw fresh (write_line-true e.write line lines wrote);
        seen = seen;
        scanned = check_consume-scan e line lines checked;
        was_new = fresh;
      }

  -- A spent nonce is never consumed.
  spent-refused :
      (e : Env) (n r p : String) (lines : List M.Line)
      → IsSpent M n lines
      → (consume M e n r p lines).0 ≢ ok true
  spent-refused e n r p lines spent h =
      let c = consume-HasConsumed e n r p lines h in cc (spent c.seen c.scanned, c.was_new)

  -- Where written records read back, once `consume` has returned true for a nonce, it never does so
  -- again: not after any number of further connections, whatever they send and however their
  -- writes end.
  pub consume-once :
      (L : IsLawful M) (e f : Env) (n r p r' p' : String) (lines : List M.Line)
      (history : List (Env × Client))
      → (consume M e n r p lines).0 ≡ ok true
      → (consume M f n r' p' (serve_all history (consume M e n r p lines).1)).0 ≢ ok true
  consume-once L e f n r p r' p' lines history h = spent-refused f n r' p' _ (
      IsSpent-serve_all n history _ (
        subst (IsSpent M n) (sym (consume-HasConsumed e n r p lines h).written)
          (IsSpent-record M L n r p e.stamp lines)))
