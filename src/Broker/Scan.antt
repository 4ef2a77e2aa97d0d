-- ===== src/Broker/Scan.antt =====
-- src/sddgov/broker.py: the scan of a ledger that has grown.
use agentic_sdd_governance.Base.{
  ◌≤◌, ◌<◌, ◌≡◌, refl, sym, ◌∙◌, String, true, some, List, [], ◌∷◌, ◌++◌, ok, err, arith, eq_iff,
  subst, ok-injective, >>=-eq-ok, ◌>>=◌,
}
use agentic_sdd_governance.Python.Value.{Value, get, lookup}
use agentic_sdd_governance.Broker.Medium.{Medium, IsLawful, ledger_record}
use agentic_sdd_governance.Broker.Ledger.{
  max_ledger_bytes, contains, nonce_of, read_line, scan_lines, scan, file_size,
}

module _ (M : Medium) where
  -- What one line adds is the only new nonce.
  scan_lines-contains :
      (n : String) (seen : List String) (lines : List M.Line) {s : List String}
      → contains n seen ≡ true
      → scan_lines M seen lines ≡ ok s
      → contains n s ≡ true
  unfolding scan_lines
  scan_lines-contains n seen [] c h = ground arith
  scan_lines-contains n seen (line ∷ lines) c h =
      let (m, read, rest) =
        >>=-eq-ok (read_line M seen line) (λ k. scan_lines M (k ∷ seen) lines) h in
      scan_lines-contains n (m ∷ seen) lines (ground arith) rest

  -- A scan of a longer ledger scans the shorter one first.
  pub scan_lines-append :
      (seen : List String) (lines more : List M.Line)
      → scan_lines M seen (lines ++ more) ≡ (scan_lines M seen lines >>= λ s. scan_lines M s more)
  unfolding scan_lines
  scan_lines-append seen [] more = refl
  scan_lines-append seen (line ∷ lines) more =
      elim (read_line M seen line)
        as (λ r.
          (r >>= λ k. scan_lines M (k ∷ seen) (lines ++ more))
          ≡ ((r >>= λ k. scan_lines M (k ∷ seen) lines) >>= λ s. scan_lines M s more)) [
            | ok k ↦ scan_lines-append (k ∷ seen) lines more
            | err e ↦ refl
          ]

  file_size-le : (lines more : List M.Line) → file_size M lines ≤ file_size M (lines ++ more)
  unfolding file_size
  file_size-le [] more = omega arith
  file_size-le (line ∷ lines) more = omega (arith, file_size-le lines more)

  -- A scan succeeds when the ledger is small enough and its lines are records.
  pub scan-eq-ok :
      (lines : List M.Line) {s : List String}
      → scan M lines ≡ ok s
      → (file_size M lines < max_ledger_bytes) × (scan_lines M [] lines ≡ ok s)
  unfolding scan
  scan-eq-ok lines h = ground arith

  pub scan-of-lines :
      (lines : List M.Line) {s : List String}
      → file_size M lines < max_ledger_bytes
      → scan_lines M [] lines ≡ ok s
      → scan M lines ≡ ok s
  unfolding scan
  scan-of-lines lines small h = ground arith

  -- Every scan of the ledger that succeeds finds the nonce.
  abbrev pub IsSpent : String → List M.Line → Type 0
  IsSpent n lines = (s : List String) → scan M lines ≡ ok s → contains n s ≡ true

  pub scan-append :
      (lines more : List M.Line) {s : List String}
      → scan M (lines ++ more) ≡ ok s
      → (s' : List String) × (scan M lines ≡ ok s') × (scan_lines M s' more ≡ ok s)
  scan-append lines more {s} h =
      let (small, whole) = scan-eq-ok (lines ++ more) h in
      let (s', first, rest) =
        >>=-eq-ok (scan_lines M [] lines) (λ k. scan_lines M k more)
          (sym (scan_lines-append [] lines more) ∙ whole) in
      (s', scan-of-lines lines (omega (arith, file_size-le lines more)) first, rest)

  pub IsSpent-append :
      (n : String) (lines more : List M.Line) → IsSpent n lines → IsSpent n (lines ++ more)
  IsSpent-append n lines more spent s h =
      let (s', first, rest) = scan-append lines more h in
      scan_lines-contains n s' more (spent s' first) rest

  read_line-nonce :
      (seen : List String) (line : M.Line) {row : Value} {m : String}
      → M.loads line ≡ some row
      → read_line M seen line ≡ ok m
      → m ≡ nonce_of row
  unfolding read_line
  read_line-nonce seen line loads h = ground arith

  contains-cons : (n m : String) (s : List String) → m ≡ n → contains n (m ∷ s) ≡ true
  contains-cons n m s e = ground (arith, eq_iff m n)

  -- A line that was written for a nonce makes it spent.
  pub IsSpent-record :
      (L : IsLawful M) (n r p t : String) (lines : List M.Line)
      → IsSpent n (lines ++ (M.dumps (ledger_record n r p t) ∷ []))
  unfolding scan_lines get lookup
  IsSpent-record L n r p t lines s h =
      let line = M.dumps (ledger_record n r p t) in
      let (s', first, rest) = scan-append lines (line ∷ []) h in
      let (m, read, last) = >>=-eq-ok (read_line M s' line) (λ k. scan_lines M (k ∷ s') []) rest in
      subst (λ z. contains n z ≡ true) (ok-injective last)
        (contains-cons n m s' (read_line-nonce s' line (L.loads-dumps n r p t) read))
