-- ===== src/Broker/Accepts.antt =====
-- src/sddgov/broker.py: the failures that `_serve_requests` survives, and those that it does not.
use agentic_sdd_governance.Base.{
  ℕ, zero, suc, ◌+◌, ◌≤◌, ◌<◌, ◌≡◌, ◌↔◌, ◌⊎◌, refl, ap, ◌∙◌, Bool, true, false, List, [], ◌∷◌, ◌++◌,
  none, some, arith, Option-cases, inl, inr, All, count_if,
}
use Prim.Native.Nat.{◌^◌, ◌*◌, min}
use agentic_sdd_governance.Broker.Daemon.{
  Accept, connected, timed_out, interrupted, refused, Loop, start, turn, serve_requests,
  max_consecutive_accept_failures,
}

abbrev pub is_refused : Accept → Bool
is_refused refused = true
is_refused _ = false

abbrev pub is_connected : Accept → Bool
is_connected connected = true
is_connected _ = false

-- A turn that neither connects nor times out: a row of failures goes on over it.
abbrev pub GoesOn : Accept → Type 0
GoesOn refused = Unit
GoesOn interrupted = Unit
GoesOn connected = ⊥
GoesOn timed_out = ⊥

-- The failures since the last turn that connected or timed out, after `n` of them.
abbrev pub in_a_row : ℕ → List Accept → ℕ
in_a_row n [] = n
in_a_row n (refused ∷ turns) = in_a_row (n + 1) turns
in_a_row n (interrupted ∷ turns) = in_a_row n turns
in_a_row n (connected ∷ turns) = in_a_row 0 turns
in_a_row n (timed_out ∷ turns) = in_a_row 0 turns

-- The pauses after these failures, in tenths of a second: one for the first of a row, and twice the
-- one before for the next.
abbrev pub pauses : ℕ → List Accept → ℕ
pauses n [] = 0
pauses n (refused ∷ turns) = 2 ^ n + pauses (n + 1) turns
pauses n (interrupted ∷ turns) = pauses n turns
pauses n (connected ∷ turns) = pauses 0 turns
pauses n (timed_out ∷ turns) = pauses 0 turns

record IsSteady (s : Loop) : Type 0 where
  few : s.failures < 5
  doubled : s.backoff ≡ 2 ^ s.failures

-- What the loop's variables say of the turns that it has seen.
pub record IsAfter (turns : List Accept) (s s' : Loop) : Type 0 where
  pub few : s'.failures < max_consecutive_accept_failures
  pub counted : s'.failures ≡ in_a_row s.failures turns
  pub doubled : s'.backoff ≡ 2 ^ in_a_row s.failures turns
  pub served : s'.served ≡ s.served + count_if is_connected turns
  pub slept : s'.slept ≡ s.slept + pauses s.failures turns

doubling : (n : ℕ) → n + 1 < 5 → min 20 (2 ^ n * 2) ≡ 2 ^ (n + 1)
doubling zero h = refl
doubling (suc zero) h = refl
doubling (suc (suc zero)) h = refl
doubling (suc (suc (suc zero))) h = refl
doubling (suc (suc (suc (suc n)))) h = absurd (omega arith)

-- A failure that the loop survives, and one that it does not.
refused-next :
    (s s' : Loop)
    → IsSteady s
    → turn s refused ≡ some s'
    → IsSteady s'
      × (s'.failures ≡ s.failures + 1)
      × (s'.served ≡ s.served)
      × (s'.slept ≡ s.slept + 2 ^ s.failures)
unfolding turn
refused-next s s' h e = ground (arith, doubling s.failures)

refused-count : (s s' : Loop) → turn s refused ≡ some s' → s'.failures ≡ s.failures + 1
unfolding turn
refused-count s s' e = ground arith

refused-last : (s : Loop) → turn s refused ≡ none → 4 ≤ s.failures
unfolding turn
refused-last s e = ground arith

turn-few : (s s' : Loop) (a : Accept) → s.failures < 5 → turn s a ≡ some s' → s'.failures < 5
unfolding turn
turn-few s s' connected h e = ground arith
turn-few s s' timed_out h e = ground arith
turn-few s s' interrupted h e = ground arith
turn-few s s' refused h e = ground arith

serve_requests-keeps :
    (turns : List Accept) (s s' : Loop)
    → IsSteady s
    → serve_requests turns s ≡ some s'
    → IsAfter turns s s'
unfolding serve_requests turn
serve_requests-keeps [] s s' h e = ground arith
serve_requests-keeps (connected ∷ turns) s s' h e =
    let fresh = record s { failures = 0; backoff = 1; served = s.served + 1 } in
    let later = serve_requests-keeps turns fresh s' (omega arith) e in
    record {
      few = later.few;
      counted = later.counted;
      doubled = later.doubled;
      served = omega (arith, later.served);
      slept = later.slept;
    }
serve_requests-keeps (timed_out ∷ turns) s s' h e =
    let fresh = record s { failures = 0; backoff = 1 } in
    let later = serve_requests-keeps turns fresh s' (omega arith) e in
    record {
      few = later.few;
      counted = later.counted;
      doubled = later.doubled;
      served = later.served;
      slept = later.slept;
    }
serve_requests-keeps (interrupted ∷ turns) s s' h e =
    let later = serve_requests-keeps turns s s' h e in
    record {
      few = later.few;
      counted = later.counted;
      doubled = later.doubled;
      served = later.served;
      slept = later.slept;
    }
serve_requests-keeps (refused ∷ turns) s s' h e = elim (Option-cases (turn s refused)) [
  | inl over ↦ cc (rw (over, serve_requests) at e)
  | inr (next, q) ↦
      let (steady, one_more, same, longer) = refused-next s next h q in
      let later = serve_requests-keeps turns next s' steady (rw (q, serve_requests) at e) in
      let row = ap (λ n. in_a_row n turns) one_more in
      record {
        few = later.few;
        counted = later.counted ∙ row;
        doubled = later.doubled ∙ ap (λ n. 2 ^ n) row;
        served = omega (arith, later.served, same);
        slept = omega (arith, later.slept, longer, ap (λ n. pauses n turns) one_more);
      }
]

-- While the daemon serves: the failures that it counts are those since the last turn that connected
-- or timed out, and fewer than five; the pause before the next is a tenth of a second doubled for
-- each of them, so that the cap of two seconds is never reached; it has handled every connection,
-- and paused after every failure, each time twice as long as after the one before in its row.
pub serve_requests-IsAfter :
    (turns : List Accept) (s' : Loop)
    → serve_requests turns start ≡ some s'
    → IsAfter turns start s'
serve_requests-IsAfter turns s' e = serve_requests-keeps turns start s' (omega arith) e

-- Five failures with nothing between them but interruptions.
pub record HasRow (turns : List Accept) : Type 0 where
  pub before : List Accept
  pub row : List Accept
  pub later : List Accept
  pub split : turns ≡ before ++ (row ++ later)
  pub unbroken : All GoesOn row
  pub five : count_if is_refused row ≡ 5

shifted : (a : Accept) (turns : List Accept) → HasRow turns → HasRow (a ∷ turns)
shifted a turns r = record {
  before = a ∷ r.before;
  row = r.row;
  later = r.later;
  split = ap (λ rest. a ∷ rest) r.split;
  unbroken = r.unbroken;
  five = r.five;
}

-- A row that starts at the first turn, with `n` failures before it.
abbrev Starts : ℕ → List Accept → Type 0
Starts n turns =
    (row later : List Accept) × (turns ≡ row ++ later)
    × All GoesOn row
    × (count_if is_refused row + n ≡ 5)

moved_on : (a : Accept) (turns : List Accept) → Starts 0 turns ⊎ HasRow turns → HasRow (a ∷ turns)
moved_on a turns (inl (row, later, e, unbroken, five)) = record {
  before = a ∷ [];
  row = row;
  later = later;
  split = ap (λ rest. a ∷ rest) e;
  unbroken = unbroken;
  five = omega arith;
}
moved_on a turns (inr r) = shifted a turns r

interrupted_first :
    (n : ℕ) (turns : List Accept)
    → Starts n turns ⊎ HasRow turns
    → Starts n (interrupted ∷ turns) ⊎ HasRow (interrupted ∷ turns)
interrupted_first n turns (inl (row, later, e, unbroken, five)) =
    inl (interrupted ∷ row, later, ap (λ rest. interrupted ∷ rest) e, (tt, unbroken), five)
interrupted_first n turns (inr r) = inr (shifted interrupted turns r)

refused_first :
    (n m : ℕ) (turns : List Accept)
    → m ≡ n + 1
    → Starts m turns ⊎ HasRow turns
    → Starts n (refused ∷ turns) ⊎ HasRow (refused ∷ turns)
refused_first n m turns one_more (inl (row, later, e, unbroken, five)) =
    inl (refused ∷ row, later, ap (λ rest. refused ∷ rest) e, (tt, unbroken), omega arith)
refused_first n m turns one_more (inr r) = inr (shifted refused turns r)

serve_requests-none :
    (turns : List Accept) (s : Loop)
    → s.failures < 5
    → serve_requests turns s ≡ none
    → Starts s.failures turns ⊎ HasRow turns
unfolding serve_requests turn
serve_requests-none [] s h e = cc
serve_requests-none (connected ∷ turns) s h e =
    let fresh = record s { failures = 0; backoff = 1; served = s.served + 1 } in
    inr (moved_on connected turns (serve_requests-none turns fresh (omega arith) e))
serve_requests-none (timed_out ∷ turns) s h e =
    let fresh = record s { failures = 0; backoff = 1 } in
    inr (moved_on timed_out turns (serve_requests-none turns fresh (omega arith) e))
serve_requests-none (interrupted ∷ turns) s h e =
    interrupted_first s.failures turns (serve_requests-none turns s h e)
serve_requests-none (refused ∷ turns) s h e = elim (Option-cases (turn s refused)) [
  | inl over ↦ inl (refused ∷ [], turns, refl, (tt, tt), omega (arith, refused-last s over))
  | inr (next, q) ↦
      refused_first s.failures next.failures turns (refused-count s next q)
        (serve_requests-none turns next (turn-few s next refused h q) (rw (q, serve_requests) at e))
]

row-none :
    (row later : List Accept) (s : Loop)
    → All GoesOn row
    → s.failures < 5
    → 5 ≤ count_if is_refused row + s.failures
    → serve_requests (row ++ later) s ≡ none
unfolding serve_requests turn
row-none [] later s h few many = absurd (omega arith)
row-none (connected ∷ row) later s h few many = absurd h.0
row-none (timed_out ∷ row) later s h few many = absurd h.0
row-none (interrupted ∷ row) later s h few many = row-none row later s h.1 few many
row-none (refused ∷ row) later s h few many = elim (Option-cases (turn s refused)) [
  | inl over ↦ rw (over, serve_requests) refl
  | inr (next, q) ↦
      rw (q, serve_requests)
        (row-none row later next h.1 (turn-few s next refused few q)
          (omega (arith, refused-count s next q)))
]

before-none :
    (before tail : List Accept) (s : Loop)
    → s.failures < 5
    → ((s' : Loop) → s'.failures < 5 → serve_requests tail s' ≡ none)
    → serve_requests (before ++ tail) s ≡ none
unfolding serve_requests
before-none [] tail s few ends = ends s few
before-none (a ∷ before) tail s few ends = elim (Option-cases (turn s a)) [
  | inl over ↦ rw (over, serve_requests) refl
  | inr (next, q) ↦
      rw (q, serve_requests) (before-none before tail next (turn-few s next a few q) ends)
]

found_row : (turns : List Accept) → Starts 0 turns ⊎ HasRow turns → HasRow turns
found_row turns (inl (row, later, e, unbroken, five)) = record {
  before = [];
  row = row;
  later = later;
  split = e;
  unbroken = unbroken;
  five = omega arith;
}
found_row turns (inr r) = r

-- The daemon gives up exactly when five failures stand in a row somewhere among the turns, with
-- nothing between them but interruptions; whatever came before them.
pub serve_requests-gives_up :
    (turns : List Accept) → (serve_requests turns start ≡ none) ↔ HasRow turns
serve_requests-gives_up turns = (
  λ e. found_row turns (serve_requests-none turns start (omega arith) e),
  λ r.
      ap (λ all. serve_requests all start) r.split
      ∙ before-none r.before (r.row ++ r.later) start (omega arith)
          (λ s few. row-none r.row r.later s r.unbroken few (omega (arith, r.five))),
)
