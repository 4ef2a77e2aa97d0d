-- ===== src/Broker/Recovery.antt =====
-- src/sddgov/broker.py: the ledger after a complete write, and after a torn one.
use agentic_sdd_governance.Base.{
  ℕ, suc, ◌+◌, ◌≤◌, ◌<◌, ◌≡◌, ◌≢◌, refl, sym, ap, ◌∙◌, subst, String, Bool, true, false, List, [],
  ◌∷◌, ◌++◌, ok, arith, >>=-eq-ok, after-eq-ok, if◌then◌else◌, some, le→leb,
}
use agentic_sdd_governance.Python.Value.{Value, get, lookup}
use agentic_sdd_governance.Broker.Medium.{Medium, IsLawful, ledger_record}
use agentic_sdd_governance.Broker.Ledger.{
  Env, synced, failed, max_ledger_bytes, max_ledger_record_bytes, contains, nonce_of, read_line,
  scan_lines, scan, file_size, write_line, check_consume, consume, valid_ledger_record, open_ledger,
}
use agentic_sdd_governance.Broker.Daemon.{Client}
use agentic_sdd_governance.Broker.Scan.{scan-append, scan-of-lines, scan_lines-append, scan-eq-ok}
use agentic_sdd_governance.Broker.Append.{Extends, extends, handle_connection-Extends}
use agentic_sdd_governance.Broker.SingleUse.{serve_all}

module _ (M : Medium) where
  -- No scan of the ledger succeeds.
  abbrev pub IsClosed : List M.Line → Type 0
  IsClosed lines = (s : List String) → scan M lines ≢ ok s

  torn-unread :
      (L : IsLawful M) (v : Value) (k : ℕ) (seen : List String) (m : String)
      → k < M.size (M.dumps v)
      → read_line M seen (M.torn (M.dumps v) k) ≢ ok m
  unfolding read_line
  torn-unread L v k seen m h r = ground (arith, L.ends_newline-torn v k h)

  IsClosed-torn :
      (L : IsLawful M) (v : Value) (k : ℕ) (lines : List M.Line)
      → k < M.size (M.dumps v)
      → IsClosed (lines ++ (M.torn (M.dumps v) k ∷ []))
  unfolding scan_lines
  IsClosed-torn L v k lines h s scanned =
      let line = M.torn (M.dumps v) k in
      let (s', first, rest) = scan-append M lines (line ∷ []) scanned in
      let (m, read, last) = >>=-eq-ok (read_line M s' line) (λ j. scan_lines M (j ∷ s') []) rest in
      torn-unread L v k s' m h read

  IsClosed-Extends :
      (lines lines' : List M.Line) → IsClosed lines → Extends M lines lines' → IsClosed lines'
  IsClosed-Extends lines lines' closed (extends more e) s scanned =
      let (s', first, rest) = scan-append M lines more (subst (λ l. scan M l ≡ ok s) e scanned) in
      closed s' first

  IsClosed-serve_all :
      (history : List (Env × Client)) (lines : List M.Line)
      → IsClosed lines
      → IsClosed (serve_all M history lines)
  IsClosed-serve_all [] lines closed = closed
  IsClosed-serve_all ((e, c) ∷ rest) lines closed =
      IsClosed-serve_all rest _
        (IsClosed-Extends lines _ closed (handle_connection-Extends M e c lines))

  check_consume-scan :
      (e : Env) (line : M.Line) (lines : List M.Line) {s : List String}
      → check_consume M e line lines ≡ ok s
      → scan M lines ≡ ok s
  unfolding check_consume
  check_consume-scan e line lines h =
      let (u, _, h') = >>=-eq-ok (open_ledger M e) _ h in
      let (v, _, h'') = >>=-eq-ok _ (λ _. scan M lines) h' in h''

  consume-closed :
      (e : Env) (n r p : String) (lines : List M.Line) (b : Bool)
      → IsClosed lines
      → (consume M e n r p lines).0 ≢ ok b
  unfolding consume
  consume-closed e n r p lines b closed h =
      let line = M.dumps (ledger_record n r p e.stamp) in
      let (s, checked, _) =
        after-eq-ok (check_consume M e line lines) lines
          (λ s. if contains n s then (λ l. (ok false, l)) else write_line M e.write line) h in
      closed s (check_consume-scan e line lines checked)

  -- What a call of `consume` leaves when its write breaks off inside the record.
  consume-torn :
      (e : Env) (n r p : String) (k : ℕ) (lines : List M.Line) {s : List String}
      → check_consume M e (M.dumps (ledger_record n r p e.stamp)) lines ≡ ok s
      → contains n s ≡ false
      → e.write ≡ failed (suc k)
      → suc k < M.size (M.dumps (ledger_record n r p e.stamp))
      → (consume M e n r p lines).1
        ≡ lines ++ (M.torn (M.dumps (ledger_record n r p e.stamp)) (suc k) ∷ [])
  unfolding consume write_line
  consume-torn e n r p k lines checked fresh broke h = rw (checked, fresh, broke) (ground arith)

  -- Where a record that misses a part is no complete line, and the write of the record of a new
  -- nonce breaks off inside it, no later call of `consume` returns: whatever requests come in
  -- between, it raises, for every nonce.
  pub consume-fails_closed :
      (L : IsLawful M) (e f : Env) (n r p n' r' p' : String) (k : ℕ) (b : Bool)
      (lines : List M.Line) (history : List (Env × Client)) {s : List String}
      → check_consume M e (M.dumps (ledger_record n r p e.stamp)) lines ≡ ok s
      → contains n s ≡ false
      → e.write ≡ failed (suc k)
      → suc k < M.size (M.dumps (ledger_record n r p e.stamp))
      → (consume M f n' r' p' (serve_all M history (consume M e n r p lines).1)).0 ≢ ok b
  consume-fails_closed L e f n r p n' r' p' k b lines history checked fresh broke h =
      consume-closed f n' r' p' _ b (
        IsClosed-serve_all history _ (
          subst IsClosed (sym (consume-torn e n r p k lines checked fresh broke h))
            (IsClosed-torn L (ledger_record n r p e.stamp) (suc k) lines h)))

  file_size-append :
      (lines : List M.Line) (line : M.Line)
      → file_size M (lines ++ (line ∷ [])) ≡ file_size M lines + M.size line
  unfolding file_size
  file_size-append [] line = omega arith
  file_size-append (l ∷ lines) line = omega (arith, file_size-append lines line)

  read_line-valid :
      (seen : List String) (line : M.Line) {row : Value} {n : String}
      → M.size line ≤ max_ledger_record_bytes
      → M.ends_newline line ≡ true
      → M.loads line ≡ some row
      → valid_ledger_record M row ≡ true
      → nonce_of row ≡ n
      → contains n seen ≡ false
      → read_line M seen line ≡ ok n
  unfolding read_line
  read_line-valid seen line {row} small ended loads valid named fresh =
      rw (le→leb _ _ small, ended, loads, valid, named, fresh)

  nonce_of-record : (n r p t : String) → nonce_of (ledger_record n r p t) ≡ n
  unfolding get lookup
  nonce_of-record n r p t = refl

  check_consume-fits :
      (e : Env) (line : M.Line) (lines : List M.Line) {s : List String}
      → open_ledger M e ≡ ok tt
      → file_size M lines + M.size line < max_ledger_bytes
      → scan M lines ≡ ok s
      → check_consume M e line lines ≡ ok s
  unfolding check_consume
  check_consume-fits e line lines opened fits scanned = rw (opened, scanned) (ground arith)

  consume-written :
      (e : Env) (n r p : String) (lines : List M.Line) {s : List String}
      → check_consume M e (M.dumps (ledger_record n r p e.stamp)) lines ≡ ok s
      → contains n s ≡ false
      → e.write ≡ synced
      → consume M e n r p lines ≡ (ok true, lines ++ (M.dumps (ledger_record n r p e.stamp) ∷ []))
  unfolding consume write_line
  consume-written e n r p lines checked fresh written = rw (checked, fresh, written)

  scan-record :
      (L : IsLawful M) (n r p t : String) (lines : List M.Line) {s : List String}
      → scan M lines ≡ ok s
      → contains n s ≡ false
      → valid_ledger_record M (ledger_record n r p t) ≡ true
      → M.size (M.dumps (ledger_record n r p t)) ≤ max_ledger_record_bytes
      → file_size M lines + M.size (M.dumps (ledger_record n r p t)) < max_ledger_bytes
      → scan M (lines ++ (M.dumps (ledger_record n r p t) ∷ [])) ≡ ok (n ∷ s)
  unfolding scan_lines
  scan-record L n r p t lines {s} scanned fresh valid small fits =
      let line = M.dumps (ledger_record n r p t) in
      scan-of-lines M (lines ++ (line ∷ [])) (omega (arith, file_size-append lines line)) (
        scan_lines-append M [] lines (line ∷ [])
        ∙ rw (
          (scan-eq-ok M lines scanned).1,
          read_line-valid s line small (L.ends_newline-dumps _) (L.loads-dumps n r p t) valid
              (nonce_of-record n r p t) fresh,
        ))

  -- Where written records read back, the ledger opens and is readable, and the new record is valid
  -- and fits, a complete write of a nonce that is not in the ledger consumes it, and the ledger
  -- stays readable: the scan finds the nonces of before and the new one.
  pub consume-new :
      (L : IsLawful M) (e : Env) (n r p : String) (lines : List M.Line) {s : List String}
      → open_ledger M e ≡ ok tt
      → scan M lines ≡ ok s
      → contains n s ≡ false
      → valid_ledger_record M (ledger_record n r p e.stamp) ≡ true
      → M.size (M.dumps (ledger_record n r p e.stamp)) ≤ max_ledger_record_bytes
      → file_size M lines + M.size (M.dumps (ledger_record n r p e.stamp)) < max_ledger_bytes
      → e.write ≡ synced
      → ((consume M e n r p lines).0 ≡ ok true) × (scan M (consume M e n r p lines).1 ≡ ok (n ∷ s))
  consume-new L e n r p lines opened scanned fresh valid small fits written =
      let done =
        consume-written e n r p lines
          (check_consume-fits e (M.dumps (ledger_record n r p e.stamp)) lines opened fits scanned)
          fresh written in
      (
        ap (λ z. z.0) done,
        ap (λ z. scan M z.1) done
            ∙ scan-record L n r p e.stamp lines scanned fresh valid small fits,
      )
