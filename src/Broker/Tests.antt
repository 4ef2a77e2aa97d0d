-- ===== src/Broker/Tests.antt =====
-- Tests of src/sddgov/broker.py on a ledger of decoded lines.
use agentic_sdd_governance.Python.Text.{is_sha256}
use agentic_sdd_governance.Base.{
  ℕ, ◌≡◌, ◌≢◌, ◌↔◌, ◌≤◌, refl, String, Bool, true, false, Option, none, some, List, [], ◌∷◌, length,
  ok, arith,
}
use agentic_sdd_governance.Python.Value.{get, has_exactly, Value}
use agentic_sdd_governance.Broker.Medium.{Medium, IsLawful}
use agentic_sdd_governance.Broker.Ledger.{
  valid_nonce_fields, valid_ledger_record, write_line, file_size, check_metadata, Stat, Env, synced,
  failed, check_consume, consume, scan,
}
use agentic_sdd_governance.Broker.Daemon.{
  Client, bytes, receive, is_one_record, max_request_bytes, connected, refused, interrupted, Loop,
  Accept, start, turn, serve_requests,
}
use agentic_sdd_governance.Broker.SingleUse.{serve_all, consume-once}
use agentic_sdd_governance.Broker.Recovery.{consume-fails_closed, consume-new}
use agentic_sdd_governance.Broker.Receive.{receive_complete}
use agentic_sdd_governance.Broker.Accepts.{
  IsAfter, HasRow, serve_requests-IsAfter, serve_requests-gives_up,
}

-- A line is a whole record of 300 bytes, or a part of one.
data JsonLine : Type 0 where
  whole : Value → JsonLine
  part : JsonLine

line_size : JsonLine → ℕ
line_size (whole v) = 300
line_size part = 1

is_whole : JsonLine → Bool
is_whole (whole v) = true
is_whole part = false

content : JsonLine → Option Value
content (whole v) = some v
content part = none

abbrev json_lines : Medium
unfolding line_size is_whole content
json_lines = record {
  Line = JsonLine;
  size = line_size;
  ends_newline = is_whole;
  loads = content;
  dumps = whole;
  torn = λ _ _. part;
  loads_bytes = λ _. none;
  reads_as_utc = λ _. true;
}

json_lines-IsLawful : IsLawful json_lines
unfolding line_size is_whole content json_lines
json_lines-IsLawful = record {
  ends_newline-dumps = λ _. refl;
  loads-dumps = λ _ _ _ _. refl;
  ends_newline-torn = λ _ _ _. refl;
}

abbrev sound_file : Stat
sound_file = record { regular = true; nlink = 1; uid = 1000; mode = 384 }

abbrev quiet_host : Env
quiet_host = record {
  opened = ok sound_file;
  expected_uid = 1000;
  stamp = "2026-01-01T00:00:00Z";
  write = synced;
}

-- The write stops after seven bytes.
abbrev full_disk : Env
full_disk = record {
  opened = ok sound_file;
  expected_uid = 1000;
  stamp = "2026-01-01T00:00:00Z";
  write = failed 7;
}

abbrev nonce_a : String
nonce_a = "nonce-000001"

abbrev digest_a : String
digest_a = "aaaaaaaaaaaaaaaaaaaaaaaaaaaaaaaaaaaaaaaaaaaaaaaaaaaaaaaaaaaaaaaa"

abbrev digest_b : String
digest_b = "bbbbbbbbbbbbbbbbbbbbbbbbbbbbbbbbbbbbbbbbbbbbbbbbbbbbbbbbbbbbbbbb"

-- `{}` and a newline.
abbrev braces : List ℕ
braces = 123 ∷ 125 ∷ 10 ∷ []

abbrev short_client : Client
short_client = record { stream = braces; arrivals = bytes 5 ∷ bytes 0 ∷ [] }

consume-once_example :
    (consume json_lines quiet_host nonce_a digest_b digest_b (
      serve_all json_lines
        ((quiet_host, short_client) ∷ [])
        (consume json_lines quiet_host nonce_a digest_a digest_b []).1)).0
    ≢ ok true
unfolding consume scan check_consume check_metadata file_size json_lines write_line
consume-once_example =
    consume-once json_lines json_lines-IsLawful quiet_host quiet_host nonce_a digest_a digest_b
      digest_b digest_b [] ((quiet_host, short_client) ∷ []) refl

consume-fails_closed_example :
    (consume json_lines quiet_host nonce_a digest_b digest_b (
      serve_all json_lines
        ((quiet_host, short_client) ∷ [])
        (consume json_lines full_disk nonce_a digest_a digest_b []).1)).0
    ≢ ok true
unfolding check_consume scan check_metadata file_size json_lines
consume-fails_closed_example =
    consume-fails_closed json_lines json_lines-IsLawful full_disk quiet_host nonce_a digest_a
      digest_b nonce_a digest_b digest_b 6 true [] ((quiet_host, short_client) ∷ []) {s = []} refl
      refl refl (omega arith)

consume-new_example :
    ((consume json_lines quiet_host nonce_a digest_a digest_b []).0 ≡ ok true)
    × (scan json_lines (consume json_lines quiet_host nonce_a digest_a digest_b []).1
        ≡ ok (nonce_a ∷ []))
unfolding scan check_metadata file_size valid_ledger_record has_exactly valid_nonce_fields get
    is_sha256 json_lines
consume-new_example =
    consume-new json_lines json_lines-IsLawful quiet_host nonce_a digest_a digest_b [] {s = []} refl
      refl refl refl (omega arith) (omega arith) refl

receive_complete_example :
    (braces ≡ braces) × (length braces ≤ max_request_bytes) × (is_one_record braces ≡ true)
unfolding receive
receive_complete_example = receive_complete (bytes 5 ∷ bytes 0 ∷ []) braces refl

abbrev turns : List Accept
turns = refused ∷ connected ∷ refused ∷ interrupted ∷ refused ∷ []

abbrev served_once : Loop
served_once = record { failures = 2; backoff = 4; served = 1; slept = 4 }

serve_requests-IsAfter_example : IsAfter turns start served_once
unfolding serve_requests turn
serve_requests-IsAfter_example = serve_requests-IsAfter turns served_once refl

five_refused :
    serve_requests (refused ∷ refused ∷ interrupted ∷ refused ∷ refused ∷ refused ∷ []) start ≡ none
unfolding serve_requests turn
five_refused = refl

serve_requests-gives_up_example : (serve_requests turns start ≡ none) ↔ HasRow turns
serve_requests-gives_up_example = serve_requests-gives_up turns
