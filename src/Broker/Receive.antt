-- ===== src/Broker/Receive.antt =====
-- src/sddgov/broker.py: what `_receive_request` returns.
use agentic_sdd_governance.Base.{
  ℕ, zero, suc, ◌≤◌, ◌≡◌, refl, sym, ap, ◌∙◌, subst, true, false, List, [], ◌∷◌, ◌++◌, length, ok,
  err, value_error, os_error, arith, ◌≢◌, Bool-cases, inl, inr, leb,
}
use mathlib.Core.List.{append-nil, append_assoc}
use agentic_sdd_governance.Broker.Daemon.{
  Arrival, bytes, late, broken, receive, check_received, is_one_record, max_request_bytes, take,
  drop, room,
}

take-append-drop : (n : ℕ) (xs : List ℕ) → take n xs ++ drop n xs ≡ xs
take-append-drop zero xs = refl
take-append-drop (suc n) [] = refl
take-append-drop (suc n) (x ∷ xs) = rw (take-append-drop n xs)

-- The bytes are at most so many, and are one record.
abbrev pub IsRequest : List ℕ → Type 0
IsRequest raw = (length raw ≤ max_request_bytes) × (is_one_record raw ≡ true)

check_received-eq-ok :
    (value : List ℕ) {raw : List ℕ}
    → check_received value ≡ ok raw
    → (raw ≡ value) × IsRequest value
unfolding check_received
check_received-eq-ok value h = ground arith

module _ (value : List ℕ) {raw : List ℕ} where
  -- A client that has sent all.
  at_end : check_received value ≡ ok raw → (raw ≡ value ++ []) × IsRequest raw
  at_end h =
      let (same, request) = check_received-eq-ok value h in
      (same ∙ sym (append-nil value), subst IsRequest (sym same) request)

  too_long : leb (length value) max_request_bytes ≡ false → check_received value ≢ ok raw
  unfolding check_received
  too_long long h = ground arith

-- What the loop returns is what it had read and all that the client has sent.
receive-whole :
    (arrivals : List Arrival) (value stream : List ℕ) {raw : List ℕ}
    → receive arrivals value stream ≡ ok raw
    → (raw ≡ value ++ stream) × IsRequest raw
unfolding receive
receive-whole [] value stream h = cc
receive-whole (arrival ∷ rest) value stream {raw} h =
    elim (Bool-cases (leb (length value) max_request_bytes)) [
      | inr long ↦ absurd (too_long value long (rw long at h))
      | inl room_left ↦
          turn (λ v bs e. receive-whole rest v bs e) arrival stream (rw room_left at h)
    ]
  where
    turn :
        ((v bs : List ℕ) → receive rest v bs ≡ ok raw → (raw ≡ v ++ bs) × IsRequest raw)
        → (a : Arrival) (bs : List ℕ)
        → (elim a [
          | late ↦ err (value_error "broker request exceeded the read deadline")
          | broken ↦ err (os_error "recv")
          | bytes k ↦ elim bs [
            | [] ↦ check_received value
            | c ∷ cs ↦
                receive rest (value ++ take (room value k) (c ∷ cs)) (drop (room value k) (c ∷ cs))
          ]
        ])
          ≡ ok raw
        → (raw ≡ value ++ bs) × IsRequest raw
    turn ih late bs e = cc
    turn ih broken bs e = cc
    turn ih (bytes k) [] e = at_end value e
    turn ih (bytes k) (c ∷ cs) e =
        let (same, request) =
          ih (value ++ take (room value k) (c ∷ cs)) (drop (room value k) (c ∷ cs)) e in
        (
          same
              ∙ append_assoc value _ _
              ∙ ap (λ z. value ++ z) (take-append-drop (room value k) (c ∷ cs)),
          request,
        )

-- A request that is received is all that the client sent up to its end of the stream, at most 2048
-- bytes, and ends with its only newline.
pub receive_complete :
    (arrivals : List Arrival) (stream : List ℕ) {raw : List ℕ}
    → receive arrivals [] stream ≡ ok raw
    → (raw ≡ stream) × (length raw ≤ max_request_bytes) × (is_one_record raw ≡ true)
receive_complete arrivals stream h =
    let (same, (short, one)) = receive-whole arrivals [] stream h in (same, short, one)
