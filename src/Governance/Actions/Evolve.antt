-- ===== src/Governance/Actions/Evolve.antt =====
-- src/sddgov/governance.py: how the rows of the store of external actions change.
use agentic_sdd_governance.Base.{
  ℕ, ◌≡◌, refl, ap, ◌∙◌, String, Bool, true, false, some, List, [], ◌∷◌, ◌++◌, keep, any, Result,
  ok, ◌⊎◌, inl, inr, if◌then◌else◌, after, after-keeps, if-keeps, ◌==◌, Exec,
}
use agentic_sdd_governance.Python.Value.{Value, Fields, eq_str}
use agentic_sdd_governance.Host.{Host}
use agentic_sdd_governance.Governance.Project.{Project, Event, emit_event, risk_levels}
use agentic_sdd_governance.Governance.Actions.Store.{
  load_store, row_get, named, change_row, with_rows,
}
use agentic_sdd_governance.Governance.Actions.Enqueue.{store_content}

abbrev pub is_pending : Value → Bool
is_pending row = eq_str (row_get "status" row) "pending"

-- Each row is what it was, or was pending; rows may have been added at the end.
abbrev pub Evolves : List Value → List Value → Type 0
Evolves [] later = Unit
Evolves (row ∷ rows) [] = ⊥
Evolves (row ∷ rows) (next ∷ later) = ((next ≡ row) ⊎ (is_pending row ≡ true)) × Evolves rows later

-- The project's actions are what they were, or their rows have evolved.
pub record HasEvolved (p q : Project) : Type 0 where
  pub file : Fields
  pub rows : List Value
  pub next : List Value
  pub loaded : load_store (store_content p) ≡ ok (file, rows)
  pub written : q.actions ≡ some (with_rows file next)
  pub evolves : Evolves rows next

abbrev pub KeepsTerminal : Project → Project → Type 0
KeepsTerminal p q = (q.actions ≡ p.actions) ⊎ HasEvolved p q

pub Evolves-added : (rows more : List Value) → Evolves rows (rows ++ more)
Evolves-added [] more = tt
Evolves-added (row ∷ rows) more = (inl refl, Evolves-added rows more)

-- A row that is named is the one that was kept.
kept-one :
    (b : Bool) (row first : Value) (rest : List Value)
    → (elim b [ true ↦ first ∷ rest | false ↦ rest ]) ≡ row ∷ []
    → ((b ≡ true) × (first ≡ row) × (rest ≡ [])) ⊎ ((b ≡ false) × (rest ≡ row ∷ []))
kept-one true row first rest e = inl (refl, cc, cc)
kept-one false row first rest e = inr (refl, e)

kept-none :
    (b : Bool) (first : Value) (rest : List Value)
    → (elim b [ true ↦ first ∷ rest | false ↦ rest ]) ≡ []
    → (b ≡ false) × (rest ≡ [])
kept-none true first rest e = cc
kept-none false first rest e = (refl, e)

change_row-none :
    (id : String) (f : Value → Value) (rows : List Value)
    → keep (named id) rows ≡ []
    → Evolves rows (change_row id f rows)
unfolding change_row
change_row-none id f [] e = tt
change_row-none id f (row ∷ rows) e =
    let (other, rest) = kept-none (named id row) row (keep (named id) rows) e in
    (inl (ap (λ b. if b then f row else row) other), change_row-none id f rows rest)

-- The one row that is changed was pending.
pub change_row-Evolves :
    (id : String) (f : Value → Value) (rows : List Value) (row : Value)
    → keep (named id) rows ≡ row ∷ []
    → is_pending row ≡ true
    → Evolves rows (change_row id f rows)
unfolding change_row
change_row-Evolves id f [] row e pending = cc
change_row-Evolves id f (first ∷ rows) row e pending =
    elim (kept-one (named id first) row first (keep (named id) rows) e) [
      | inl (here, same, rest) ↦
          (inr (ap is_pending same ∙ pending), change_row-none id f rows rest)
      | inr (other, rest) ↦ (
        inl (ap (λ b. if b then f first else first) other),
        change_row-Evolves id f rows row rest pending,
      )
    ]

emit_event-actions :
    (h : Host) (now : ℕ) (event risk : String) (payload : Value) (p : Project)
    → (emit_event h now event risk payload p).1.actions ≡ p.actions
unfolding emit_event
emit_event-actions h now event risk payload p =
    if-keeps (λ (x : Result Event × Project). x.1.actions ≡ p.actions)
      (any (λ r. risk == r) risk_levels) _ _ (λ _. refl) (λ _. refl)

-- What is read back after a write and its event.
pub written-HasEvolved :
    (h : Host) (now : ℕ) (event risk : String) (payload : Value) (p : Project) (file : Fields)
    (rows next : List Value) (k : Event → Exec Project Value)
    → load_store (store_content p) ≡ ok (file, rows)
    → Evolves rows next
    → ((e : Event) (q : Project) → (k e q).1 ≡ q)
    → KeepsTerminal p
        (after
          (emit_event h now event risk payload (record p { actions = some (with_rows file next) }))
          k).1
written-HasEvolved h now event risk payload p file rows next k loaded evolves still =
    let q =
      (emit_event h now event risk payload (record p { actions = some (with_rows file next) })) in
    inr (record {
      file = file;
      rows = rows;
      next = next;
      loaded = loaded;
      written =
          after-keeps (λ (x : Project). x.actions ≡ some (with_rows file next)) q.0 q.1 k
            (emit_event-actions h now event risk payload _)
            (λ e _.
              ap (λ (x : Project). x.actions) (still e q.1)
              ∙ emit_event-actions h now event risk payload _);
      evolves = evolves;
    })
