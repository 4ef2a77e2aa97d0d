-- ===== src/Broker/Medium.antt =====
-- What src/sddgov/broker.py takes from its host: the JSON codec, lines of a file, the clock's text.
use agentic_sdd_governance.Base.{ℕ, ◌<◌, ◌≡◌, String, Bool, true, false, Option, some, List}
use agentic_sdd_governance.Python.Value.{Value, str, obj, field, end}

-- A line of the ledger is what `readline` returns, its newline included.
pub record Medium : Type 1 where
  pub Line : Type 0
  -- `len(line)`, in bytes
  pub size : Line → ℕ
  pub ends_newline : Line → Bool
  -- `json.loads(line[:-1].decode("utf-8"))`; `none` where either step fails
  pub loads : Line → Option Value
  -- `json.dumps(value, …).encode("utf-8") + b"\n"`
  pub dumps : Value → Line
  -- the first bytes of a line
  pub torn : Line → ℕ → Line
  -- `json.loads(raw.decode("utf-8"))` of the bytes of a request; `none` is that it is not
  -- UTF-8 or not JSON. A request that is nested too deep for the parser is not modelled
  pub loads_bytes : List ℕ → Option Value
  -- `datetime.fromisoformat(text)` succeeds, with the offset of UTC
  pub reads_as_utc : String → Bool

-- The record of one consumed nonce, its keys in the order of `sort_keys`.
abbrev pub ledger_record : String → String → String → String → Value
ledger_record nonce receipt payload stamp = obj (
    field "consumed_at" (str stamp) (
      field "nonce" (str nonce) (
        field "operation_payload_sha256" (str payload) (field "receipt_sha256" (str receipt) end))))

-- A written record is one line, reads back, and is no complete line while a part is missing.
pub record IsLawful (M : Medium) : Type 0 where
  pub ends_newline-dumps : (v : Value) → M.ends_newline (M.dumps v) ≡ true
  pub loads-dumps :
      (n r p s : String) → M.loads (M.dumps (ledger_record n r p s)) ≡ some (ledger_record n r p s)
  pub ends_newline-torn :
      (v : Value) (k : ℕ) → k < M.size (M.dumps v) → M.ends_newline (M.torn (M.dumps v) k) ≡ false
