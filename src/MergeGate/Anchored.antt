-- ===== src/MergeGate/Anchored.antt =====
-- src/sddgov/merge_gate.py: whose word counts on who may review.
use agentic_sdd_governance.Base.{
  ◌≡◌, refl, ap, ◌∙◌, String, ◌<>◌, true, false, not, ◌⊎◌, inl, inr, Option, none, some, [], ◌∷◌,
  arith, Result, ok, err, value_error, os_error, type_error, key_error, attribute_error,
  file_not_found, refuse, refuse-eq-ok, Ensures, Ensures-bind, if-keeps,
}
use agentic_sdd_governance.Python.Value.{
  Value, null, bool, int, float, str, arr, obj, Items, nil, cons, Fields, get,
}
use agentic_sdd_governance.MergeGate.Git.{Git, git}
use agentic_sdd_governance.MergeGate.Paths.{first_consumer_base}
use agentic_sdd_governance.MergeGate.Reviewers.{
  External, external_trusted_reviewers, is_list, is_store, populated_or, use_base_store, after_show,
  trusted_reviewers,
}

abbrev shown : Git → String → Result String
shown run base_ref = git run ("show" ∷ (base_ref <> ":.sddgov/trusted-reviewers.json") ∷ [])

store-list : (store : Fields) → is_store store ≡ true → is_list (get "reviewers" store) ≡ true
unfolding is_store
store-list store h = ground arith

Ensures-of {ℓ κ} :
    {A : Type ℓ} (P : A → Type κ) (r : Result A) → ((a : A) → r ≡ ok a → P a) → Ensures P r
Ensures-of P (ok a) k = k a refl
Ensures-of P (err e) k = tt

module _ (run : Git) (loads : String → Option Value) (ext : External) (base_ref : String) where
  -- The store at the base, whose contract holds.
  abbrev pub IsBaseStore : Fields → Type 0
  IsBaseStore store =
      (text : String) × (shown run base_ref ≡ ok text)
      × (loads text ≡ some (obj store))
      × (is_store store ≡ true)

  -- The store at the base names somebody, and is used; or it names nobody, and the external one is
  -- used; or the base has none and nothing else of the framework, and the separately protected
  -- external one is used.
  abbrev pub IsAnchored : Fields → Type 0
  IsAnchored trust =
      (IsBaseStore trust
        × (row : Value) × (rows : Items) × (get "reviewers" trust ≡ arr (cons row rows)))
      ⊎ ((store : Fields) × IsBaseStore store
          × (get "reviewers" store ≡ arr nil)
          × (external_trusted_reviewers ext false ≡ ok trust))
      ⊎ ((first_consumer_base run base_ref ≡ ok true)
          × (external_trusted_reviewers ext true ≡ ok trust))

  populated_or-IsAnchored :
      (store : Fields) (reviewers : Value)
      → IsBaseStore store
      → get "reviewers" store ≡ reviewers
      → Ensures IsAnchored (populated_or ext store reviewers)
  unfolding populated_or
  populated_or-IsAnchored store (arr (cons row rows)) h e = inl (h, row, rows, e)
  populated_or-IsAnchored store (arr nil) h e =
      Ensures-of IsAnchored (external_trusted_reviewers ext false)
        (λ trust f. inr (inl (store, h, e, f)))
  populated_or-IsAnchored store null h e = cc (store-list store h.3, ap is_list e)
  populated_or-IsAnchored store (bool b) h e = cc (store-list store h.3, ap is_list e)
  populated_or-IsAnchored store (int n) h e = cc (store-list store h.3, ap is_list e)
  populated_or-IsAnchored store (float n s) h e = cc (store-list store h.3, ap is_list e)
  populated_or-IsAnchored store (str s) h e = cc (store-list store h.3, ap is_list e)
  populated_or-IsAnchored store (obj d) h e = cc (store-list store h.3, ap is_list e)

  use_base_store-IsAnchored :
      (text : String) (loaded : Option Value)
      → shown run base_ref ≡ ok text
      → loads text ≡ loaded
      → Ensures IsAnchored (use_base_store ext loaded)
  unfolding use_base_store
  use_base_store-IsAnchored text none e f = tt
  use_base_store-IsAnchored text (some null) e f = tt
  use_base_store-IsAnchored text (some (bool b)) e f = tt
  use_base_store-IsAnchored text (some (int n)) e f = tt
  use_base_store-IsAnchored text (some (float n s)) e f = tt
  use_base_store-IsAnchored text (some (str s)) e f = tt
  use_base_store-IsAnchored text (some (arr vs)) e f = tt
  use_base_store-IsAnchored text (some (obj store)) e f =
      Ensures-bind IsAnchored
        (refuse (not (is_store store))
          "trusted reviewer store at trusted base has an invalid contract")
        _
        (λ _ g.
          let contract = refuse-eq-ok (not (is_store store)) _ g in
          populated_or-IsAnchored store (get "reviewers" store) (text, e, f, ground arith) refl)

  after_show-IsAnchored :
      (answer : Result String)
      → shown run base_ref ≡ answer
      → Ensures IsAnchored (after_show run loads ext base_ref answer)
  unfolding after_show
  after_show-IsAnchored (ok text) e = use_base_store-IsAnchored text (loads text) e refl
  after_show-IsAnchored (err (value_error m)) e =
      Ensures-bind IsAnchored (first_consumer_base run base_ref) _ (λ first f.
        if-keeps (Ensures IsAnchored) first _ _
          (λ yes.
            Ensures-of IsAnchored (external_trusted_reviewers ext true)
              (λ trust g. inr (inr (f ∙ ap ok yes, g))))
          (λ _. tt))
  after_show-IsAnchored (err (os_error m)) e = tt
  after_show-IsAnchored (err type_error) e = tt
  after_show-IsAnchored (err key_error) e = tt
  after_show-IsAnchored (err attribute_error) e = tt
  after_show-IsAnchored (err file_not_found) e = tt

  -- The store of reviewers that is used is the one at the base where that names anybody at all; the
  -- external store is used only where the store at the base is there and names nobody, or where the
  -- base has no store, no policy and no other file of the framework, and then it is read by the
  -- stricter of the two ways.
  pub trusted_reviewers-IsAnchored : Ensures IsAnchored (trusted_reviewers run loads ext base_ref)
  unfolding trusted_reviewers
  trusted_reviewers-IsAnchored = after_show-IsAnchored (shown run base_ref) refl
