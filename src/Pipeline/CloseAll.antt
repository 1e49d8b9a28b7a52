-- ===== src/Pipeline/CloseAll.antt =====
-- `DecisionPipeline.close_all_positions`: every open position is closed at its mark, in turn.
use mathlib.Core.Path.{subst}
use smarty_trader.Prelude.{
  any, ◌⊎◌, ap, arith, is_some, ℕ, ◌≡◌, refl, sym, ◌∙◌, Bool, true, false, String, Option, none,
  some, List, [], ◌∷◌, ◌||◌, Bool-cases, inl, inr, if◌then◌else◌, string_eq,
}
use smarty_trader.Prelude.Dict.{Dict, lookup}
use smarty_trader.Float.{Float, ◌≤?◌, ◌=?◌, zero_f}
use smarty_trader.Models.{Position, OrderResult}
use smarty_trader.Sizing.{closing_side}
use smarty_trader.Pipeline.{
  Venue, Setup, Effect, Cycle, same_side, send, is_order_working, note_fill,
}
use smarty_trader.Paper.{OrderRequest}
use smarty_trader.Pipeline.Closing.{
  opposite, closing_order, closing_side-opposite, exit_order-closing_order,
}
use smarty_trader.Pipeline.Exits.{exit_order}
use smarty_trader.Pipeline.Effects.{note_fill-log, note_fill-venue}

abbrev pub prepend {ℓ} : {A : Type ℓ} → A → Option (List A) → Option (List A)
prepend a none = none
prepend a (some rest) = some (a ∷ rest)

module _ {F S : Type 0} ⦃d : Float F⦄ where
  -- A position without quantity or without a usable mark, or with its close at the venue, is skipped.
  unfoldable pub is_passed_over : Venue F S → Position F → Cycle F S → Bool
  is_passed_over v p c =
      p.quantity ≤? zero_f
      || (p.current_price =? zero_f || p.current_price ≤? zero_f)
      || is_order_working v p.symbol (closing_side p.side) c

  -- the rest of the loop after an order; an exception of the venue ends it
  abbrev pub and_then :
      Setup F
      → Dict String String
      → ℕ
      → Position F
      → (Cycle F S → Option (List (String × OrderResult F)) × Cycle F S)
      → Option (OrderResult F) × Cycle F S
      → Option (List (String × OrderResult F)) × Cycle F S
  and_then setup owners now p rest (none, c) = (none, c)
  and_then setup owners now p rest (some o, c) =
      let (closed, c') = rest (note_fill setup (lookup p.symbol owners) now o c) in
      (prepend (p.symbol, o) closed, c')

  unfoldable pub close_each :
      Setup F
      → Venue F S
      → Dict String String
      → ℕ
      → List (Position F)
      → Cycle F S
      → Option (List (String × OrderResult F)) × Cycle F S
  close_each setup v owners now [] c = (some [], c)
  close_each setup v owners now (p ∷ ps) c =
      let passed = close_each setup v owners now ps in
      if is_passed_over v p c
      then passed c
      else and_then setup owners now p passed (send v (exit_order p.symbol p p.current_price) c)

  -- `owners` is empty without sleeves, and where the owners cannot be read.
  unfoldable pub close_all_positions :
      Setup F
      → Venue F S
      → Dict String String
      → ℕ
      → Cycle F S
      → Option (List (String × OrderResult F)) × Cycle F S
  unfolding close_each
  close_all_positions setup v owners now c = elim (v.positions c.venue) [
    | none ↦ (none, c)
    | some ps ↦ close_each setup v owners now ps c
  ]

module _ {F S : Type 0} ⦃d : Float F⦄ (v : Venue F S) where
  -- Nothing is left of the position, its mark is unusable, or an order on the closing side works.
  abbrev pub IsLeft : Position F → Cycle F S → Type 0
  IsLeft p c =
      ((p.quantity ≤? zero_f) ≡ true)
      ⊎ ((p.current_price =? zero_f) ≡ true)
      ⊎ ((p.current_price ≤? zero_f) ≡ true)
      ⊎ (any (same_side (opposite p.side)) (v.working_order_sides p.symbol c.venue) ≡ true)

  -- The position has a quantity and a mark above zero, and no order on the closing side works.
  pub record IsClosable (p : Position F) (c : Cycle F S) : Type 0 where
    pub held : (p.quantity ≤? zero_f) ≡ false
    pub priced : (p.current_price =? zero_f) ≡ false
    pub marked : (p.current_price ≤? zero_f) ≡ false
    pub free : any (same_side (opposite p.side)) (v.working_order_sides p.symbol c.venue) ≡ false

  abbrev pub order_for : Position F → OrderRequest F
  order_for p = closing_order p.symbol p p.current_price

  -- From the first cycle to the second over the positions in their order, each of which is left or
  -- closed in the state that it is met in. True if the list was gone through, false if the venue
  -- raised at one.
  pub data Reduces : Bool → List (Position F) → Cycle F S → Cycle F S → Type 0 where
    finished : {c : Cycle F S} → Reduces true [] c c
    raised :
        {p : Position F} {ps : List (Position F)} {c : Cycle F S} (after : Cycle F S)
        → IsClosable p c
        → (v.place_order (order_for p) c.venue).0 ≡ none
        → after.log ≡ Effect.placed (order_for p) ∷ c.log
        → Reduces false (p ∷ ps) c after
    passed :
        {b : Bool} {p : Position F} {ps : List (Position F)} {c c' : Cycle F S}
        → IsLeft p c
        → Reduces b ps c c'
        → Reduces b (p ∷ ps) c c'
    sent :
        {b : Bool} {p : Position F} {ps : List (Position F)} {c c' : Cycle F S} (after : Cycle F S)
        → IsClosable p c
        → is_some (v.place_order (order_for p) c.venue).0 ≡ true
        → after.venue ≡ (v.place_order (order_for p) c.venue).1
        → after.log ≡ Effect.placed (order_for p) ∷ c.log
        → Reduces b ps after c'
        → Reduces b (p ∷ ps) c c'

  is_passed_over-IsLeft :
      (p : Position F) (c : Cycle F S) → is_passed_over v p c ≡ true → IsLeft p c
  unfolding is_passed_over is_order_working
  is_passed_over-IsLeft p c h = ground (
    arith,
    h,
    ap (λ s. any (same_side s) (v.working_order_sides p.symbol c.venue))
        (closing_side-opposite p.side),
  )

  is_passed_over-IsClosable :
      (p : Position F) (c : Cycle F S) → is_passed_over v p c ≡ false → IsClosable p c
  unfolding is_passed_over is_order_working
  is_passed_over-IsClosable p c h = ground (
    arith,
    h,
    ap (λ s. any (same_side s) (v.working_order_sides p.symbol c.venue))
        (closing_side-opposite p.side),
  )

  module _ (setup : Setup F) (owners : Dict String String) (now : ℕ) where
    -- what `close_each` gives for `ps` from a cycle
    abbrev Closed :
        List (Position F) → Cycle F S → Option (List (String × OrderResult F)) × Cycle F S → Type 0
    Closed ps c out = Reduces (is_some out.0) ps c out.1

    prepend-is_some : {A : Type 0} (a : A) (o : Option (List A)) → is_some (prepend a o) ≡ is_some o
    prepend-is_some a none = refl
    prepend-is_some a (some rest) = refl

    and_then-Closed :
        (p : Position F) (ps : List (Position F)) (c : Cycle F S)
        (rest : Cycle F S → Option (List (String × OrderResult F)) × Cycle F S)
        (out : Option (OrderResult F) × Cycle F S)
        → IsClosable p c
        → out ≡ send v (order_for p) c
        → ((c' : Cycle F S) → Closed ps c' (rest c'))
        → Closed (p ∷ ps) c (and_then setup owners now p rest out)
    unfolding send
    and_then-Closed p ps c rest (none, c') taken same later =
        Reduces.raised c' taken (sym (ap (λ o. o.0) same)) (ap (λ o. o.1.log) same)
    and_then-Closed p ps c rest (some o, c') taken same later =
        let owner = lookup p.symbol owners in
        let noted = note_fill setup owner now o c' in
        subst (λ b. Reduces b (p ∷ ps) c (rest noted).1)
          (sym (prepend-is_some (p.symbol, o) (rest noted).0))
          (Reduces.sent noted taken (sym (ap (λ o. is_some o.0) same))
            (note_fill-venue setup owner now o c' ∙ ap (λ o. o.1.venue) same)
            (note_fill-log setup owner now o c' ∙ ap (λ o. o.1.log) same) (later noted))

    close_each-Closed :
        (ps : List (Position F)) (c : Cycle F S) → Closed ps c (close_each setup v owners now ps c)
    unfolding close_each
    close_each-Closed [] c = Reduces.finished
    close_each-Closed (p ∷ ps) c = elim (Bool-cases (is_passed_over v p c)) [
      | inl over ↦
          rw (over, close_each)
            (Reduces.passed (is_passed_over-IsLeft p c over) (close_each-Closed ps c))
      | inr taken ↦
          rw (taken, close_each)
            (and_then-Closed p ps c (close_each setup v owners now ps)
              (send v (exit_order p.symbol p p.current_price) c)
              (is_passed_over-IsClosable p c taken)
              (ap (λ r. send v r c) (exit_order-closing_order p.symbol p p.current_price))
              (close_each-Closed ps))
    ]

    -- Closing all positions asks no model and no gate. Over the positions that the venue lists, in
    -- their order: one without a quantity or a usable mark, or with an order working on its closing
    -- side, is left; for any other exactly one order is sent, which closes all of it on the other
    -- side at its mark, and nothing else is. If it returns, the whole list was gone through; an
    -- exception of the venue at an order leaves the rest.
    pub close_all_positions-Reduces :
        (ps : List (Position F)) (c : Cycle F S)
        → v.positions c.venue ≡ some ps
        → let out = close_all_positions setup v owners now c in Reduces (is_some out.0) ps c out.1
    unfolding close_all_positions
    close_all_positions-Reduces ps c readable =
        rw (readable, close_all_positions) (close_each-Closed ps c)
