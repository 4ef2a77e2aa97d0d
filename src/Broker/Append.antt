-- ===== src/Broker/Append.antt =====
-- src/sddgov/broker.py: what a request may do to the lines of the ledger.
use agentic_sdd_governance.Base.{
  ℕ, ◌≡◌, refl, sym, String, Bool, true, false, List, [], ◌∷◌, ◌++◌, Result, ok, after-keeps,
  if-keeps, if◌then◌else◌, after,
}
use mathlib.Core.List.{append-nil}
use agentic_sdd_governance.Python.Value.{Fields, obj, get}
use agentic_sdd_governance.Python.Equality.{py_eq}
use agentic_sdd_governance.Broker.Medium.{Medium, ledger_record}
use agentic_sdd_governance.Broker.Ledger.{
  Env, Written, synced, failed, contains, validate, partial, write_line, check_consume, consume,
}
use agentic_sdd_governance.Broker.Daemon.{
  Client, Response, dispatch, handle_request, handle_connection, parse_request, receive, ready,
  consumed, already_consumed, health, text_or_empty,
}

module _ (M : Medium) where
  -- What is on disk after a write, complete or torn, is the ledger and more.
  pub data Extends (lines : List M.Line) (lines' : List M.Line) : Type 0 where
    extends : (more : List M.Line) → lines' ≡ lines ++ more → Extends lines lines'

  Extends-refl : (lines : List M.Line) → Extends lines lines
  Extends-refl lines = extends [] (sym (append-nil lines))

  write_line-Extends :
      (w : Written) (line : M.Line) (lines : List M.Line)
      → Extends lines (write_line M w line lines).1
  unfolding write_line
  write_line-Extends synced line lines = extends (line ∷ []) refl
  write_line-Extends (failed k) line lines = extends (partial M line k) refl

  -- A call of `consume` only adds to the end of the ledger.
  pub consume-Extends :
      (e : Env) (n r p : String) (lines : List M.Line) → Extends lines (consume M e n r p lines).1
  unfolding consume
  consume-Extends e n r p lines =
      let line = M.dumps (ledger_record n r p e.stamp) in
      after-keeps (Extends lines) (check_consume M e line lines) lines
        (λ seen. if contains n seen then (λ l. (ok false, l)) else write_line M e.write line)
        (Extends-refl lines)
        (λ seen checked.
          elim (contains n seen)
            as (λ b.
              Extends lines
                ((if b then (λ (l : List M.Line). (ok false, l)) else write_line M e.write line)
                  lines).1) [
                    | true ↦ Extends-refl lines
                    | false ↦ write_line-Extends e.write line lines
                  ])

  dispatch-Extends :
      (e : Env) (d : Fields) (lines : List M.Line) → Extends lines (dispatch M e d lines).1
  unfolding dispatch
  dispatch-Extends e d lines =
      if-keeps {A = Result Response × List M.Line} (λ z. Extends lines z.1) _ _ _
        (λ _.
          after_consume (text_or_empty (get "nonce" d)) (text_or_empty (get "receipt_sha256" d))
            (text_or_empty (get "operation_payload_sha256" d)))
        (λ _. Extends-refl lines)
    where
      after_consume :
          (n r p : String)
          → Extends lines
              (after
                (consume M e n r p lines)
                (λ (done : Bool) l. (ok (if done then consumed else already_consumed), l))).1
      after_consume n r p =
          let (x, l) = consume M e n r p lines in
          after-keeps (Extends lines) x l
            (λ done k. (ok (if done then consumed else already_consumed), k))
            (consume-Extends e n r p lines) (λ done _. consume-Extends e n r p lines)

  validate-Extends :
      (e : Env) (lines : List M.Line)
      → Extends lines (after (validate M e lines, lines) (λ _ k. (ok ready, k))).1
  validate-Extends e lines =
      after-keeps (Extends lines) (validate M e lines) lines (λ _ k. (ok ready, k))
        (Extends-refl lines) (λ _ _. Extends-refl lines)

  handle_request-Extends :
      (e : Env) (raw : List ℕ) (lines : List M.Line)
      → Extends lines (handle_request M e raw lines).1
  unfolding handle_request
  handle_request-Extends e raw lines =
      after-keeps (Extends lines) (parse_request M raw) lines
        (λ d l.
          if py_eq (obj d) health
          then after (validate M e l, l) (λ _ k. (ok ready, k))
          else dispatch M e d l)
        (Extends-refl lines)
        (λ d _.
          if-keeps {A = Result Response × List M.Line} (λ z. Extends lines z.1)
            (py_eq (obj d) health) _ _ (λ _. validate-Extends e lines)
            (λ _. dispatch-Extends e d lines))

  pub handle_connection-Extends :
      (e : Env) (c : Client) (lines : List M.Line) → Extends lines (handle_connection M e c lines).1
  unfolding handle_connection
  handle_connection-Extends e c lines =
      after-keeps (Extends lines) (receive c.arrivals [] c.stream) lines
        (λ raw. handle_request M e raw) (Extends-refl lines)
        (λ raw _. handle_request-Extends e raw lines)
