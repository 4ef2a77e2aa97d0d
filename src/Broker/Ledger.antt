-- ===== src/Broker/Ledger.antt =====
-- src/sddgov/broker.py: `NonceLedger`. The ledger is the lines of its file; `consume` runs under
-- the exclusive lock, so calls follow one another.
use Prim.Native.Nat.{bit_and}
use agentic_sdd_governance.Base.{
  ℕ, zero, suc, ◌+◌, String, ◌<>◌, Bool, true, false, not, ◌&&◌, ◌||◌, Option, none, some, List, [],
  ◌∷◌, ◌++◌, any, leb, eqb, ltb, Result, ok, err, Exn, value_error, os_error, Exec, after, ◌>>=◌,
  ◌>>◌, refuse, if◌then◌else◌, ◌==◌,
}
use agentic_sdd_governance.Python.Text.{len, all_chars, is_sha256, ends_with_char}
use agentic_sdd_governance.Python.Value.{Value, str, obj, Fields, get, has_exactly}
use agentic_sdd_governance.Broker.Medium.{Medium, ledger_record}

abbrev pub max_ledger_record_bytes : ℕ
max_ledger_record_bytes = 2048

abbrev pub max_ledger_bytes : ℕ
max_ledger_bytes = 67108864

-- What `fstat` says of a file: a regular file, its links, its owner, its mode.
pub record Stat : Type 0 where
  pub regular : Bool
  pub nlink : ℕ
  pub uid : ℕ
  pub mode : ℕ

-- The test of `_open` on the opened descriptor; 0o077 is 63.
unfoldable pub check_metadata : ℕ → Stat → Result (Unit {0})
check_metadata expected_uid s =
    refuse
      (not s.regular
        || not (eqb s.nlink 1)
        || not (eqb s.uid expected_uid)
        || not (eqb (bit_and s.mode 63) 0))
      "broker ledger must be a single-linked, owner-only regular file"

-- `0x21 <= ord(character) <= 0x7E`
abbrev pub is_graphic : ℕ → Bool
is_graphic c = leb 0x21 c && leb c 0x7e

unfoldable pub is_nonce : Value → Bool
unfolding len all_chars
is_nonce (str s) = leb 12 (len s) && leb (len s) 256 && all_chars is_graphic s
is_nonce _ = false

unfoldable pub is_digest : Value → Bool
is_digest (str s) = is_sha256 s
is_digest _ = false

-- `_valid_nonce_fields`, of a dict
unfoldable pub valid_nonce_fields : Fields → Bool
unfolding is_nonce is_digest
valid_nonce_fields d =
    is_nonce (get "nonce" d)
    && is_digest (get "receipt_sha256" d)
    && is_digest (get "operation_payload_sha256" d)

-- `text.removesuffix("Z")` of a text that ends so
unfoldable pub drop_last : String → String
drop_last String.[] = ""
drop_last (String.◌∷◌ c String.[]) = ""
drop_last (String.◌∷◌ c (String.◌∷◌ d s)) = String.◌∷◌ c (drop_last (String.◌∷◌ d s))

module _ (M : Medium) where
  -- The tests on `consumed_at`.
  unfoldable pub is_stamp : Value → Bool
  unfolding ends_with_char drop_last
  is_stamp (str s) = ends_with_char b'Z' s && M.reads_as_utc (drop_last s <> "+00:00")
  is_stamp _ = false

  -- `_valid_ledger_record`
  unfoldable pub valid_ledger_record : Value → Bool
  unfolding is_stamp
  valid_ledger_record (obj d) =
      has_exactly ("nonce" ∷ "receipt_sha256" ∷ "operation_payload_sha256" ∷ "consumed_at" ∷ []) d
      && valid_nonce_fields d
      && is_stamp (get "consumed_at" d)
  valid_ledger_record _ = false

-- `row["nonce"]` of a record that is valid
abbrev pub nonce_of : Value → String
nonce_of (obj d) = elim (get "nonce" d) [ str s ↦ s | _ ↦ "" ]
nonce_of _ = ""

abbrev pub contains : String → List String → Bool
contains nonce seen = any (λ n. n == nonce) seen

abbrev pub invalid_record : Exn
invalid_record = value_error "broker ledger contains an invalid record"

module _ (M : Medium) where
  -- What one decoded line adds to the nonces seen.
  unfoldable pub read_row : List String → Option Value → Result String
  read_row seen none = err invalid_record
  read_row seen (some row) =
      if not (valid_ledger_record M row) || contains (nonce_of row) seen
      then err invalid_record
      else ok (nonce_of row)

  unfoldable pub read_line : List String → M.Line → Result String
  unfolding read_row
  read_line seen line =
      if not (leb (M.size line) max_ledger_record_bytes) || not (M.ends_newline line)
      then err invalid_record
      else read_row seen (M.loads line)

  -- The `while` loop of `_scan_locked`.
  unfoldable pub scan_lines : List String → List M.Line → Result (List String)
  scan_lines seen [] = ok seen
  scan_lines seen (line ∷ lines) = read_line seen line >>= λ nonce. scan_lines (nonce ∷ seen) lines

  -- `os.fstat(descriptor).st_size`
  unfoldable pub file_size : List M.Line → ℕ
  file_size [] = 0
  file_size (line ∷ lines) = M.size line + file_size lines

  -- `_scan_locked`: the nonces of the ledger.
  unfoldable pub scan : List M.Line → Result (List String)
  unfolding scan_lines
  scan lines =
      refuse (leb max_ledger_bytes (file_size lines))
        "broker ledger exceeds the active-epoch capacity limit; complete the controlled epoch rollover runbook"
      >> scan_lines [] lines

-- How `_write_all` and `fsync` end: all is on disk, or an `OSError` after so many bytes.
pub data Written : Type 0 where
  synced : Written
  failed : ℕ → Written

-- What the host does during one request: `_open` and its metadata, the clock, the write.
pub record Env : Type 0 where
  pub opened : Result Stat
  pub expected_uid : ℕ
  pub stamp : String
  pub write : Written

module _ (M : Medium) where
  -- Of a line, the bytes that reached the file.
  unfoldable pub partial : M.Line → ℕ → List M.Line
  partial line zero = []
  partial line (suc k) = if ltb (suc k) (M.size line) then M.torn line (suc k) ∷ [] else line ∷ []

  -- `_write_all` and `fsync`
  unfoldable pub write_line : Written → M.Line → Exec (List M.Line) Bool
  unfolding partial
  write_line synced line lines = (ok true, lines ++ (line ∷ []))
  write_line (failed k) line lines =
      (err (os_error "broker ledger write made no progress"), lines ++ partial line k)

  -- `_open(create=False)`
  abbrev pub open_ledger : Env → Result (Unit {0})
  open_ledger e = e.opened >>= check_metadata e.expected_uid

  -- The nonces of the ledger, if the record still fits.
  unfoldable pub check_consume : Env → M.Line → List M.Line → Result (List String)
  check_consume e line lines = do
    open_ledger e
    refuse (leb max_ledger_bytes (file_size M lines + M.size line))
        "broker ledger would exceed the active-epoch capacity limit; complete the controlled epoch rollover runbook"
    scan M lines

  -- `consume`
  unfoldable pub consume : Env → String → String → String → Exec (List M.Line) Bool
  consume e nonce receipt payload lines =
      let line = M.dumps (ledger_record nonce receipt payload e.stamp) in
      after (check_consume e line lines, lines)
        (λ seen. if contains nonce seen then (λ l. (ok false, l)) else write_line e.write line)

  -- `validate`
  unfoldable pub validate : Env → List M.Line → Result (Unit {0})
  validate e lines = do open_ledger e; seen ← scan M lines; ok tt
