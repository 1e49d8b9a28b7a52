-- ===== src/Tracker/Loop.antt =====
-- The loop of `on_sell` and `cover` ends by its test within the fuel that it is given.
use smarty_trader.Prelude.{
  ℕ, zero, suc, ◌<◌, ◌≡◌, refl, false, ◌⊎◌, inl, inr, List, [], ◌∷◌, arith, length, All, Bool-cases,
}
use smarty_trader.Float.{Float, ◌<?◌, ◌≺◌, ◌≼◌, zero_f, IsFinite, IsOrdered}
use smarty_trader.Tracker.{Lot, Sale, consume_lot, consume, sell_lots}

module _ {F : Type 0} ⦃d : Float F⦄ where
  abbrev pub AllFinite : List (Lot F) → Type 0
  AllFinite = All (λ l. IsFinite l.quantity)

  -- The test of the `while` fails.
  abbrev pub IsDone : Sale F → Type 0
  IsDone s = (s.lots ≡ []) ⊎ ((zero_f <? s.remaining) ≡ false)

  pub consume_stop :
      (n : ℕ) (gain : F → F) (qty fee : F) (s : Sale F)
      → (zero_f <? s.remaining) ≡ false
      → consume n gain qty fee s ≡ s
  unfolding consume
  consume_stop zero gain qty fee s h = refl
  consume_stop (suc n) gain qty fee s h = ground arith

  consume-zero : (gain : F → F) (qty fee : F) (s : Sale F) → consume zero gain qty fee s ≡ s
  unfolding consume
  consume-zero gain qty fee s = refl

  pub consume_none :
      (n : ℕ) (gain : F → F) (qty fee : F) (s : Sale F) → s.lots ≡ [] → consume n gain qty fee s ≡ s
  unfolding consume
  consume_none zero gain qty fee s h = refl
  consume_none (suc n) gain qty fee s h = ground arith

  pub consume_step :
      (n : ℕ) (gain : F → F) (qty fee : F) (s : Sale F) (lot : Lot F) (rest : List (Lot F))
      → s.lots ≡ lot ∷ rest
      → zero_f ≺ s.remaining
      → consume (suc n) gain qty fee s
        ≡ consume n gain qty fee (consume_lot gain qty fee lot rest s)
  unfolding consume
  consume_step n gain qty fee s lot rest e h = ground arith

  -- What each round keeps holds after the loop.
  pub consume_inv {κ} :
      (P : Sale F → Type κ) (gain : F → F) (qty fee : F)
      → ((s : Sale F) (lot : Lot F) (rest : List (Lot F))
          → s.lots ≡ lot ∷ rest
          → zero_f ≺ s.remaining
          → P s
          → P (consume_lot gain qty fee lot rest s))
      → (n : ℕ) (s : Sale F) (lots : List (Lot F)) → s.lots ≡ lots
      → P s
      → P (consume n gain qty fee s)
  consume_inv P gain qty fee keep n s [] e h = rw (consume_none n gain qty fee s e) h
  consume_inv P gain qty fee keep zero s (lot ∷ rest) e h = rw (consume-zero gain qty fee s) h
  consume_inv P gain qty fee keep (suc n) s (lot ∷ rest) e h =
      let s' = consume_lot gain qty fee lot rest s in
      elim (Bool-cases (zero_f <? s.remaining)) [
        | inr stop ↦ rw (consume_stop (suc n) gain qty fee s stop) h
        | inl go ↦
            rw (consume_step n gain qty fee s lot rest e go)
              (consume_inv P gain qty fee keep n s' s'.lots refl (keep s lot rest e go h))
      ]

  module _ (laws : IsOrdered F) where
    open laws use {number_of_le, lt-eq-not-le, zero_le-decimal, finite_of_between}

    zero_number : ◌≼◌ {F = F} zero_f zero_f
    zero_number = (number_of_le _ _ (zero_le-decimal 1 12)).0

    not_zero_lt_zero : ◌<?◌ {F = F} zero_f zero_f ≡ false
    not_zero_lt_zero =
        ground (arith, lt-eq-not-le zero_f zero_f zero_number zero_number, zero_number)

    -- A round uses up its lot or the rest of the order.
    consume_lot_progress :
        (gain : F → F) (qty fee : F) (lot : Lot F) (rest : List (Lot F)) (s : Sale F)
        → zero_f ≺ s.remaining
        → IsFinite lot.quantity
        → let s' = consume_lot gain qty fee lot rest s in (s'.lots ≡ rest) ⊎ (s'.remaining ≡ zero_f)
    unfolding consume_lot
    consume_lot_progress gain qty fee lot rest s pos fin =
        ground (arith, zero_le-decimal 1 12, finite_of_between s.remaining lot.quantity pos)

    consume-IsDone :
        (n : ℕ) (gain : F → F) (qty fee : F) (s : Sale F) (lots : List (Lot F))
        → s.lots ≡ lots
        → AllFinite lots
        → length lots < n
        → IsDone (consume n gain qty fee s)
    consume-IsDone zero gain qty fee s lots e fin h = elim h [ ]
    consume-IsDone (suc n) gain qty fee s [] e fin h =
        rw (consume_none (suc n) gain qty fee s e) (inl e)
    consume-IsDone (suc n) gain qty fee s (lot ∷ rest) e fin h =
        let s' = consume_lot gain qty fee lot rest s in
        elim (Bool-cases (zero_f <? s.remaining)) [
          | inr stop ↦ rw (consume_stop (suc n) gain qty fee s stop) (inr stop)
          | inl go ↦
              rw (consume_step n gain qty fee s lot rest e go)
                (elim (consume_lot_progress gain qty fee lot rest s go fin.0) [
                  | inl used ↦ consume-IsDone n gain qty fee s' rest used fin.1 (omega arith)
                  | inr empty ↦
                      let stop : (zero_f <? s'.remaining) ≡ false = rw empty not_zero_lt_zero in
                      rw (consume_stop n gain qty fee s' stop) (inr stop)
                ])
        ]

    -- Selling or covering ends by the test of its loop, with every lot or the whole order used up:
    -- one round more than there are lots is enough, for lots of finite quantity.
    pub sell_lots-IsDone :
        (gain : F → F) (qty fee : F) (lots : List (Lot F))
        → AllFinite lots
        → IsDone (sell_lots gain qty fee lots)
    unfolding sell_lots
    sell_lots-IsDone gain qty fee lots fin =
        consume-IsDone (suc (length lots)) gain qty fee _ lots refl fin (omega arith)
