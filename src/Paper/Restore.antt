-- ===== src/Paper/Restore.antt =====
-- `load_portfolio_state`: after a restart the lots cover the positions. Sums are exact (`Fixed`).
use mathlib.Core.Path.{subst}
use smarty_trader.Prelude.{
  ℕ, ◌≡◌, refl, inl, inr, String, none, List, [], ◌∷◌, arith, string_eq, ◌==◌, Bool-cases, All,
}
use smarty_trader.Prelude.Int.{ℤ, pos, ◌≤ℤ◌, ◌<ℤ◌, ltb_ℤ, int_laws, ◌-ℤ◌, ◌+ℤ◌, parts_of_eq}
use smarty_trader.Float.{fixed}
use smarty_trader.Models.{Position}
use smarty_trader.Tracker.{PositionTracker, empty_tracker, quantity, on_buy}
use smarty_trader.Tracker.Frame.{lots_of-on_buy_ne}
use smarty_trader.Tracker.Quantity.{quantity-on_buy}
use smarty_trader.Tracker.Booking.{FillRecord, replay_fills}
use smarty_trader.Paper.{PaperExecutor, top_up, top_up_all, load_portfolio_state}

-- More is held of no symbol in `t` than in `u`.
abbrev GrowsTo : PositionTracker ℤ → PositionTracker ℤ → Type 0
GrowsTo t u = (s : String) → quantity t s ≤ℤ quantity u s

-- The lots reach the position, up to the dust of 10^-12.
abbrev pub IsCovered : PositionTracker ℤ → Position ℤ → Type 0
IsCovered t p = p.quantity ≤ℤ quantity t p.symbol +ℤ pos 1

on_buy-GrowsTo :
    (t : PositionTracker ℤ) (s : String) (q p : ℤ)
    → pos 0 <ℤ q
    → GrowsTo t (on_buy t s q p (pos 0) none)
unfolding quantity
on_buy-GrowsTo t s q p h j = elim (Bool-cases (s == j)) [
  | inl eq ↦
      subst (λ (n : String). quantity t n ≤ℤ quantity (on_buy t s q p (pos 0) none) n)
        ((string_eq.test_iff s j).0 eq)
        (omega (int_laws, parts_of_eq (quantity-on_buy t s q p (pos 0) none h)))
  | inr ne ↦
      rw (lots_of-on_buy_ne t s j q p (pos 0) none (λ e. ground (arith, string_eq.test_iff s j)))
        (omega arith)
]

top_up_lem :
    (t : PositionTracker ℤ) (n : ℕ) (p : Position ℤ)
    → let t' = (top_up (t, n) p).0 in GrowsTo t t' × IsCovered t' p
unfolding top_up
top_up_lem t n p =
    let missing = p.quantity -ℤ quantity t p.symbol in
    elim (Bool-cases (ltb_ℤ (pos 1) missing)) [
      | inl more ↦
          let positive : pos 0 <ℤ missing = ground arith in
          rw more (
            on_buy-GrowsTo t p.symbol missing p.avg_entry_price positive,
            omega (
              int_laws,
              parts_of_eq
                  (quantity-on_buy t p.symbol missing p.avg_entry_price (pos 0) none positive),
            ),
          )
      | inr enough ↦
          let small : missing ≤ℤ pos 1 = ground arith in
          rw enough (λ s. omega arith, omega (int_laws, small))
    ]

top_up_all-IsCovered :
    (t : PositionTracker ℤ) (n : ℕ) (ps : List (Position ℤ))
    → let t' = (top_up_all (t, n) ps).0 in GrowsTo t t' × All (IsCovered t') ps
unfolding top_up_all
top_up_all-IsCovered t n [] = (λ s. omega arith, tt)
top_up_all-IsCovered t n (p ∷ ps) =
    let (u, k) = top_up (t, n) p in
    let (grown, covered) = top_up_lem t n p in
    let (later, rest) = top_up_all-IsCovered u k ps in
    (λ s. omega (arith, grown s, later s), (omega (int_laws, covered, later p.symbol), rest))

-- After a restart the lots, replayed from any stored fills and topped up, cover every restored
-- position up to the dust of 10^-12, so that a close of it finds lots to attribute; the cash is the
-- restored cash.
pub load_portfolio_state-IsCovered :
    (cash : ℤ) (ps : List (Position ℤ)) (fills : List (FillRecord ℤ)) (ex : PaperExecutor ℤ)
    → let ex' = (load_portfolio_state cash ps fills ex).2 in
      (ex'.cash ≡ cash) × All (IsCovered ex'.tracker) ps
unfolding load_portfolio_state
load_portfolio_state-IsCovered cash ps fills ex =
    (refl, (top_up_all-IsCovered (replay_fills empty_tracker fills).tracker 0 ps).1)
