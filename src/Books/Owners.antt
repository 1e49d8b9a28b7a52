-- ===== src/Books/Owners.antt =====
-- Every open position has an owner, and it is a configured sleeve.
use smarty_trader.Prelude.{
  if_cases, option_both, ℕ, ◌≡◌, sym, ◌∙◌, ap, ◌⊎◌, inl, inr, true, String, Option, none, some,
  List, [], ◌∷◌, map, select, All, first, ◌==◌, string_eq, nat_eq, or_else, is_some, if◌then◌else◌,
  arith, Bool-cases,
}
use smarty_trader.Prelude.Dict.{Dict, lookup, lookup-insert}
use smarty_trader.Prelude.Keys.{from_keys, member, member-from_keys, All-of_member}
use smarty_trader.Float.{Float}
use smarty_trader.Models.{Position}
use smarty_trader.Pipeline.{Ownership}
use smarty_trader.Books.{
  SleeveSpec, SleevesSettings, DecisionMeta, Hooks, names, strategies, get, is_configured,
  first_known, meta_of, present, load_meta, lots_owner, held_ownership, ownership, note_owner,
  owners_of, owners, is_open, is_held,
}

module _ {F : Type 0} where
  first-member :
      (x : String) (specs : List (SleeveSpec F))
      → is_some (first (λ spec. spec.name == x) specs) ≡ true
      → member x (map (λ spec. spec.name) specs) ≡ true
  first-member x [] h = h
  first-member x (spec ∷ specs) h = ground (arith, first-member x specs)

  first_known-member :
      (s : SleevesSettings F) (ns : List (Option String))
      → member (or_else (first_known s ns) s.default_spec.name) (names s) ≡ true
  unfolding names get
  first_known-member s [] =
      ground (arith, string_eq.test_iff s.default_spec.name s.default_spec.name)
  first_known-member s (none ∷ ns) = first_known-member s ns
  first_known-member s (some n ∷ ns) =
      if_cases (λ o. member (or_else o s.default_spec.name) (names s) ≡ true)
        (is_configured s (some n)) (first-member n (strategies s)) (λ _. first_known-member s ns)

module _ {F : Type 0} ⦃d : Float F⦄ (s : SleevesSettings F) where
  -- the symbol has an owner, which is configured
  abbrev pub Owned : Dict String String → String → Type 0
  Owned owned symbol = (n : String) × (lookup symbol owned ≡ some n) × (member n (names s) ≡ true)

  -- where the database answers there is an owner, which is configured
  abbrev IsOwning : Option (Option Ownership × Dict ℕ DecisionMeta) → Type 0
  IsOwning none = Unit
  IsOwning (some (none, cache)) = ⊥
  IsOwning (some (some w, cache)) = member w.strategy (names s) ≡ true

  held_ownership-IsOwning :
      (rows : Option (Dict ℕ DecisionMeta)) (ids : List ℕ) (cache : Dict ℕ DecisionMeta)
      → IsOwning (held_ownership s rows ids cache)
  unfolding held_ownership lots_owner
  held_ownership-IsOwning rows ids cache =
      option_both IsOwning (load_meta rows ids cache) (λ _. tt)
        λ after _. first_known-member s (map (λ i. (meta_of after i).0) ids)

  owning-elim :
      {A : Type 0} (P : A → Type 0) (r : Option (Option Ownership × Dict ℕ DecisionMeta)) (x : A)
      (f : Option Ownership → Dict ℕ DecisionMeta → A)
      → IsOwning r
      → P x
      → ((w : Ownership) (after : Dict ℕ DecisionMeta)
          → member w.strategy (names s) ≡ true
          → P (f (some w) after))
      → P (elim r [ none ↦ x | some (o, after) ↦ f o after ])
  owning-elim P none x f h p q = p
  owning-elim P (some (none, after)) x f h p q = absurd h
  owning-elim P (some (some w, after)) x f h p q = q w after h

  note_owner-Owned :
      (symbol x : String) (w : Ownership) (owned : Dict String String)
      → member w.strategy (names s) ≡ true
      → ((symbol == x) ≡ true) ⊎ Owned owned x
      → Owned (note_owner symbol (some w) owned) x
  note_owner-Owned symbol x w owned m h = elim (Bool-cases (symbol == x)) [
    | inl e ↦ (
      w.strategy,
      lookup-insert symbol x w.strategy owned
          ∙ ap (λ b. if b then some w.strategy else lookup x owned) e,
      m,
    )
    | inr ne ↦ elim h [
      | inl e ↦ absurd (ground arith)
      | inr (n, l, k) ↦ (
        n,
        lookup-insert symbol x w.strategy owned
            ∙ ap (λ b. if b then some w.strategy else lookup x owned) ne
            ∙ l,
        k,
      )
    ]
  ]

  module _ (hooks : Hooks) (rows : Option (Dict ℕ DecisionMeta))
      (positions : List (Position F)) where
    ownership-IsOwning :
        (symbol : String) (cache : Dict ℕ DecisionMeta)
        → is_held positions symbol ≡ true
        → IsOwning (ownership s hooks rows positions symbol cache)
    unfolding ownership
    ownership-IsOwning symbol cache h =
        if_cases IsOwning (is_held positions symbol)
          (λ _. held_ownership-IsOwning rows (present (hooks.entry_decision_ids symbol)) cache)
          (λ e. absurd (ground arith))

    -- what was to be owned is owned afterwards
    abbrev Keeps :
        List String
        → Dict String String
        → Option (Dict String String × Dict ℕ DecisionMeta)
        → Type 0
    Keeps symbols owned none = Unit
    Keeps symbols owned (some result) =
        (x : String) → (member x symbols ≡ true) ⊎ Owned owned x → Owned result.0 x

    Keeps-step :
        (symbol : String) (symbols : List String) (w : Ownership) (owned : Dict String String)
        (out : Option (Dict String String × Dict ℕ DecisionMeta))
        → member w.strategy (names s) ≡ true
        → Keeps symbols (note_owner symbol (some w) owned) out
        → Keeps (symbol ∷ symbols) owned out
    Keeps-step symbol symbols w owned none m h = tt
    Keeps-step symbol symbols w owned (some result) m h = λ x k.
        elim (Bool-cases (member x symbols)) [
          | inl e ↦ h x (inl e)
          | inr ne ↦ h x (
              inr (
                note_owner-Owned symbol x w owned m
                  (elim k [ inl e ↦ inl (ground arith) | inr o ↦ inr o ])))
        ]

    owners_of-Keeps :
        (symbols : List String) (owned : Dict String String) (cache : Dict ℕ DecisionMeta)
        → All (λ x. is_held positions x ≡ true) symbols
        → Keeps symbols owned (owners_of s hooks rows positions symbols owned cache)
    unfolding owners_of
    owners_of-Keeps [] owned cache h = λ x k. elim k [ inl e ↦ absurd (ground arith) | inr o ↦ o ]
    owners_of-Keeps (symbol ∷ symbols) owned cache h =
        owning-elim (Keeps (symbol ∷ symbols) owned) (ownership s hooks rows positions symbol cache)
          none
          (λ o after. owners_of s hooks rows positions symbols (note_owner symbol o owned) after)
          (ownership-IsOwning symbol cache h.0) tt
          λ w after m.
            Keeps-step symbol symbols w owned _ m
              (owners_of-Keeps symbols (note_owner symbol (some w) owned) after h.1)

  is_held-of_open :
      (x : String) (ps : List (Position F))
      → All (λ p. is_open p ≡ true) ps
      → member x (map (λ (p : Position F). p.symbol) ps) ≡ true
      → is_held ps x ≡ true
  is_held-of_open x [] h m = m
  is_held-of_open x (p ∷ ps) h m = ground (arith, is_held-of_open x ps h.1)

  -- `owners`, where the database answers
  abbrev pub AllOwned :
      List (Position F) → Option (Dict String String × Dict ℕ DecisionMeta) → Type 0
  AllOwned positions none = Unit
  AllOwned positions (some result) =
      All (λ (p : Position F). Owned result.0 p.symbol) (select is_open positions)

  select-open : (ps : List (Position F)) → All (λ p. is_open p ≡ true) (select is_open ps)
  select-open [] = tt
  select-open (p ∷ ps) =
      if_cases (All (λ q. is_open q ≡ true)) (is_open p) (λ e. (e, select-open ps))
        (λ _. select-open ps)

  Owned-each :
      (owned : Dict String String) (ps : List (Position F))
      → ((x : String) → member x (map (λ (p : Position F). p.symbol) ps) ≡ true → Owned owned x)
      → All (λ (p : Position F). Owned owned p.symbol) ps
  Owned-each owned [] h = tt
  Owned-each owned (p ∷ ps) h = (
    h p.symbol (ground (arith, string_eq.test_iff p.symbol p.symbol)),
    Owned-each owned ps λ x m. h x (ground (arith, m)),
  )

  Keeps-AllOwned :
      (hooks : Hooks) (rows : Option (Dict ℕ DecisionMeta)) (positions : List (Position F))
      (out : Option (Dict String String × Dict ℕ DecisionMeta))
      → Keeps hooks rows positions
          (from_keys (map (λ (p : Position F). p.symbol) (select is_open positions)))
          []
          out
      → AllOwned positions out
  Keeps-AllOwned hooks rows positions none h = tt
  Keeps-AllOwned hooks rows positions (some result) h =
      Owned-each result.0 (select is_open positions) λ x m. h x (
        inl
          (member-from_keys x (map (λ (p : Position F). p.symbol) (select is_open positions)) ∙ m))

  -- Where the database answers, each open position gets an owner, which is a configured sleeve.
  pub owners-AllOwned :
      (hooks : Hooks) (rows : Option (Dict ℕ DecisionMeta)) (positions : List (Position F))
      (cache : Dict ℕ DecisionMeta)
      → AllOwned positions (owners s hooks rows positions cache)
  unfolding owners
  owners-AllOwned hooks rows positions cache =
      let opened = select is_open positions in
      let keys = from_keys (map (λ (p : Position F). p.symbol) opened) in
      let held = select-open positions in
      Keeps-AllOwned hooks rows positions (owners_of s hooks rows opened keys [] cache) (
        owners_of-Keeps hooks rows opened keys [] cache (
          All-of_member (λ x. is_held opened x ≡ true) keys
            λ x m.
              is_held-of_open x opened held
                (sym (member-from_keys x (map (λ (p : Position F). p.symbol) opened)) ∙ m)))
