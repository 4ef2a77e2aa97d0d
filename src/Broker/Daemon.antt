-- ===== src/Broker/Daemon.antt =====
-- src/sddgov/broker.py: `handle_request`, `_receive_request`, `_handle_connection` and
-- `_serve_requests`.
use Prim.Native.Nat.{min}
use agentic_sdd_governance.Base.{
  ℕ, zero, suc, ◌+◌, ◌-◌, ◌*◌, String, Bool, false, not, ◌&&◌, Option, none, some, List, [], ◌∷◌,
  ◌++◌, leb, eqb, ltb, length, count_if, Result, ok, err, value_error, os_error, Exec, after, ◌>>◌,
  refuse, if◌then◌else◌,
}
use agentic_sdd_governance.Python.Value.{
  Value, str, obj, Fields, field, end, get, has_exactly, eq_str,
}
use agentic_sdd_governance.Python.Equality.{py_eq}
use agentic_sdd_governance.Broker.Medium.{Medium}
use agentic_sdd_governance.Broker.Ledger.{Env, valid_nonce_fields, consume, validate}

abbrev pub max_request_bytes : ℕ
max_request_bytes = 2048

abbrev pub newline : ℕ
newline = 10

-- `raw.endswith(b"\n")`
unfoldable pub ends_newline : List ℕ → Bool
ends_newline [] = false
ends_newline (b ∷ []) = eqb b newline
ends_newline (b ∷ c ∷ raw) = ends_newline (c ∷ raw)

-- `raw[:-1]`
unfoldable pub init : List ℕ → List ℕ
init [] = []
init (b ∷ []) = []
init (b ∷ c ∷ raw) = b ∷ init (c ∷ raw)

-- `raw.endswith(b"\n") and raw.count(b"\n") == 1`
unfoldable pub is_one_record : List ℕ → Bool
unfolding ends_newline
is_one_record raw = ends_newline raw && eqb (count_if (λ b. eqb b newline) raw) 1

-- The four answers that the daemon sends.
pub data Response : Type 0 where
  ready rejected consumed already_consumed : Response

abbrev pub health : Value
health = obj (field "action" (str "health") end)

abbrev pub text_or_empty : Value → String
text_or_empty (str s) = s
text_or_empty _ = ""

as_object : Option Value → Result Fields
as_object none = err (value_error "broker request must be valid UTF-8 JSON")
as_object (some (obj d)) = ok d
as_object (some _) = err (value_error "broker request must be a JSON object")

module _ (M : Medium) where
  -- `_parse_request`
  unfoldable pub parse_request : List ℕ → Result Fields
  unfolding is_one_record as_object
  parse_request raw = do
    refuse (not (is_one_record raw)) "broker request must be exactly one newline-terminated record"
    as_object (M.loads_bytes (init raw))

  -- Of `handle_request`, what follows the health check.
  unfoldable pub dispatch : Env → Fields → Exec (List M.Line) Response
  dispatch e d lines =
      if has_exactly ("action" ∷ "nonce" ∷ "receipt_sha256" ∷ "operation_payload_sha256" ∷ []) d
        && eq_str (get "action" d) "consume"
        && valid_nonce_fields d
      then after
          (consume M e (text_or_empty (get "nonce" d)) (text_or_empty (get "receipt_sha256" d))
            (text_or_empty (get "operation_payload_sha256" d)) lines)
          (λ done l. (ok (if done then consumed else already_consumed), l))
      else (ok rejected, lines)

  -- `handle_request`
  unfoldable pub handle_request : Env → List ℕ → Exec (List M.Line) Response
  handle_request e raw lines =
      after (parse_request raw, lines)
        (λ d l.
          if py_eq (obj d) health
          then after (validate M e l, l) (λ _ k. (ok ready, k))
          else dispatch e d l)

-- What one call of `recv` meets: at least one byte is there, the deadline has passed, or an error.
-- A stream that is used up means that the client has closed its side.
pub data Arrival : Type 0 where
  bytes : ℕ → Arrival
  late : Arrival
  broken : Arrival

abbrev pub take : ℕ → List ℕ → List ℕ
take zero xs = []
take (suc n) [] = []
take (suc n) (x ∷ xs) = x ∷ take n xs

abbrev pub drop : ℕ → List ℕ → List ℕ
drop zero xs = xs
drop (suc n) [] = []
drop (suc n) (x ∷ xs) = drop n xs

-- The tests after the loop of `_receive_request`.
unfoldable pub check_received : List ℕ → Result (List ℕ)
unfolding is_one_record
check_received value = do
  refuse (ltb max_request_bytes (length value)) "broker request exceeds the size limit"
  refuse (not (is_one_record value)) "broker request must be exactly one newline-terminated record"
  ok value

-- How many bytes `recv(min(512, MAX_REQUEST_BYTES + 1 - len(value)))` may return.
abbrev pub room : List ℕ → ℕ → ℕ
room value k = min (min 512 (max_request_bytes + 1 - length value)) (suc k)

-- `_receive_request`: the bytes so far, and what the client has sent and is not yet read.
unfoldable pub receive : List Arrival → List ℕ → List ℕ → Result (List ℕ)
unfolding check_received
receive [] value stream = err (value_error "broker request exceeded the read deadline")
receive (arrival ∷ rest) value stream =
    if leb (length value) max_request_bytes
    then elim arrival [
      | late ↦ err (value_error "broker request exceeded the read deadline")
      | broken ↦ err (os_error "recv")
      | bytes k ↦ elim stream [
        | [] ↦ check_received value
        | b ∷ bs ↦
            receive rest (value ++ take (room value k) (b ∷ bs)) (drop (room value k) (b ∷ bs))
      ]
    ]
    else check_received value

-- The `except (OSError, ValueError)` of `_handle_connection`; `none` is an exception that it lets
-- through.
unfoldable pub respond : Result Response → Option Response
respond (ok r) = some r
respond (err (value_error m)) = some rejected
respond (err (os_error m)) = some rejected
respond (err _) = none

-- A client: the bytes that it sends, and how they arrive.
pub record Client : Type 0 where
  pub stream : List ℕ
  pub arrivals : List Arrival

module _ (M : Medium) where
  -- `_handle_connection`: what is sent, and the ledger after it.
  unfoldable pub handle_connection : Env → Client → List M.Line → Option Response × List M.Line
  handle_connection e c lines =
      let (r, lines') =
        after (receive c.arrivals [] c.stream, lines) (λ raw. handle_request M e raw) in
      (respond r, lines')

-- One turn of `server.accept()`.
pub data Accept : Type 0 where
  connected : Accept
  timed_out : Accept
  interrupted : Accept
  refused : Accept

abbrev pub max_consecutive_accept_failures : ℕ
max_consecutive_accept_failures = 5

-- The loop's variables; the pause is counted in tenths of a second.
pub record Loop : Type 0 where
  pub failures : ℕ
  pub backoff : ℕ
  pub served : ℕ
  pub slept : ℕ

abbrev pub start : Loop
start = record { failures = 0; backoff = 1; served = 0; slept = 0 }

-- The body of the loop of `_serve_requests`; `none` is its `OSError`.
unfoldable pub turn : Loop → Accept → Option Loop
turn s connected = some (record s { failures = 0; backoff = 1; served = s.served + 1 })
turn s timed_out = some (record s { failures = 0; backoff = 1 })
turn s interrupted = some s
turn s refused =
    if leb max_consecutive_accept_failures (s.failures + 1)
    then none
    else some (record s {
      failures = s.failures + 1;
      backoff = min 20 (s.backoff * 2);
      slept = s.slept + s.backoff;
    })

-- The loop, over the turns until `should_stop()`.
unfoldable pub serve_requests : List Accept → Loop → Option Loop
serve_requests [] s = some s
serve_requests (a ∷ rest) s = elim (turn s a) [ none ↦ none | some s' ↦ serve_requests rest s' ]
