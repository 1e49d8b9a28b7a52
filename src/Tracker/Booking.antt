-- ===== src/Tracker/Booking.antt =====
-- src/execution/position_tracker.py: `book_fill`, the one rule for live and replayed fills, and
-- `replay_fills`.
use smarty_trader.Prelude.{
  ℕ, ◌+◌, Bool, true, false, not, ◌&&◌, String, Option, none, some, List, [], ◌∷◌, if◌then◌else◌,
  string_eq,
}
use smarty_trader.Prelude.Dict.{Dict, insert, erase}
use smarty_trader.Float.{Float, ◌⊕◌, ◌⊖◌, ◌⊗◌, ◌<?◌, ◌≤?◌, zero_f}
use smarty_trader.Tracker.{PositionTracker, SellOutcome, quantity, on_buy, on_sell, dust}

-- the stored side of a fill: "buy", "sell" or some other text
pub data FillSide : Type 0 where
  buy sell other : FillSide

abbrev pub is_known : FillSide → Bool
is_known FillSide.buy = true
is_known FillSide.sell = true
is_known FillSide.other = false

pub record FillRecord (F : Type 0) : Type 0 where
  pub symbol : String
  pub side : FillSide
  pub quantity : F
  pub price : F
  pub decision_id : Option ℕ
  pub stop_loss : Option F
  pub take_profit : Option F
  pub fee_base : F
  pub fee_quote : F
  pub order_id : Option String

abbrev pub ExitLevels : Type 0 → Type 0
ExitLevels F = Option F × Option F

-- The state of the loop in `replay_fills`.
pub record Replay (F : Type 0) : Type 0 where
  pub tracker : PositionTracker F
  pub replayed : ℕ
  pub levels : Dict String (ExitLevels F)

module _ {F : Type 0} ⦃d : Float F⦄ where
  unfoldable pub book_buy :
      PositionTracker F → String → F → F → F → F → Option ℕ → PositionTracker F
  book_buy t symbol qty price fee_base fee_quote decision =
      let shrinks = (zero_f <? fee_base) && (fee_base <? qty) in
      let exceeds = not shrinks && ((qty ≤? fee_base) && (zero_f <? qty)) in
      let booked = if shrinks then qty ⊖ fee_base else qty in
      let base = if exceeds then zero_f else fee_base in
      on_buy t symbol booked price (base ⊗ price ⊕ fee_quote) decision

  unfoldable pub book_sell :
      PositionTracker F → String → F → F → F → F → Option (SellOutcome F) × PositionTracker F
  book_sell t symbol qty price fee_base fee_quote =
      if quantity t symbol ≤? zero_f
      then (none, t)
      else (let (o, t') = on_sell t symbol qty price (fee_quote ⊕ fee_base ⊗ price) in (some o, t'))

  unfoldable pub book_fill :
      PositionTracker F
      → String
      → FillSide
      → F
      → F
      → F
      → F
      → Option ℕ
      → Option (SellOutcome F) × PositionTracker F
  unfolding book_buy book_sell
  book_fill t symbol FillSide.buy qty price fee_base fee_quote decision =
      (none, book_buy t symbol qty price fee_base fee_quote decision)
  book_fill t symbol FillSide.sell qty price fee_base fee_quote decision =
      book_sell t symbol qty price fee_base fee_quote
  book_fill t symbol FillSide.other qty price fee_base fee_quote decision =
      book_sell t symbol qty price fee_base fee_quote

  unfoldable pub note_levels :
      FillRecord F → FillSide → Dict String (ExitLevels F) → Dict String (ExitLevels F)
  note_levels f FillSide.buy levels = insert f.symbol (f.stop_loss, f.take_profit) levels
  note_levels f FillSide.sell levels = levels
  note_levels f FillSide.other levels = levels

  unfoldable pub replay_fill : Replay F → FillRecord F → Replay F
  replay_fill r f =
      let (_, t) =
        book_fill r.tracker f.symbol f.side f.quantity f.price f.fee_base f.fee_quote
          f.decision_id in
      let levels = note_levels f f.side r.levels in
      if is_known f.side
      then record {
        tracker = t;
        replayed = r.replayed + 1;
        levels = if quantity t f.symbol ≤? dust then erase f.symbol levels else levels;
      }
      else r

  unfoldable pub replay_from : Replay F → List (FillRecord F) → Replay F
  replay_from r [] = r
  replay_from r (f ∷ fs) = replay_from (replay_fill r f) fs

  unfoldable pub replay_fills : PositionTracker F → List (FillRecord F) → Replay F
  unfolding replay_from
  replay_fills t fills = replay_from (record { tracker = t; replayed = 0; levels = [] }) fills
