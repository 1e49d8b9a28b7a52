-- ===== src/Models/Orders.antt =====
-- src/core/models.py: order results.
use smarty_trader.Prelude.{ℕ, Bool, String, Option, List}

pub data OrderSide : Type 0 where
  buy sell : OrderSide

pub data OrderStatus : Type 0 where
  filled pending rejected cancelled : OrderStatus
  other : String → OrderStatus

abbrev pub is_filled : OrderStatus → Bool
is_filled OrderStatus.filled = Bool.true
is_filled OrderStatus.pending = Bool.false
is_filled OrderStatus.rejected = Bool.false
is_filled OrderStatus.cancelled = Bool.false
is_filled (OrderStatus.other s) = Bool.false

abbrev pub is_pending : OrderStatus → Bool
is_pending OrderStatus.filled = Bool.false
is_pending OrderStatus.pending = Bool.true
is_pending OrderStatus.rejected = Bool.false
is_pending OrderStatus.cancelled = Bool.false
is_pending (OrderStatus.other s) = Bool.false

pub record ClosedEntry (F : Type 0) : Type 0 where
  pub entry_decision_id : Option ℕ
  pub pnl : F

-- Why an executor refused an order; the figures of the text are left out.
pub data RejectReason : Type 0 where
  no_price insufficient_cash insufficient_position : RejectReason
  venue_reason : String → RejectReason

pub record OrderResult (F : Type 0) : Type 0 where
  pub order_id : String
  pub symbol : String
  pub side : OrderSide
  pub quantity : F
  pub price : Option F
  pub status : OrderStatus
  pub filled_at : Option ℕ
  pub reason : Option RejectReason
  pub realized_pnl : Option F
  pub closed_entries : List (ClosedEntry F)
