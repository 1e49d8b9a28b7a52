-- ===== src/Sizing/Paid.antt =====
-- An entry that was sized with the costs of the paper account is not refused for want of cash.
use native.Mathlib.Nat.{le-div_iff_mul-le}
use mathlib.Core.Path.{subst}
use smarty_trader.Prelude.{
  ℕ, ◌*◌, ◌/◌, ◌≤◌, ◌<◌, ◌≡◌, refl, sym, true, Option, none, some, arith, leb, if◌then◌else◌,
}
use smarty_trader.Prelude.Int.{ℤ, pos, negsuc, scale, ◌≤ℤ◌, ◌<ℤ◌, mul_ℤ, div_ℤ}
use smarty_trader.Float.{fixed, ◌⊕◌, ◌⊗◌, ◌⊘◌, ◌<?◌, zero_f, one_f, max_f}
use smarty_trader.Models.{Action, TradeSignal, PortfolioState}
use smarty_trader.Costs.{CostModel, cost_model, total_fee, max_affordable_fill_notional}
use smarty_trader.Costs.Affordable.{costs, most, max_affordable_pos, max_affordable-fits, add_pos}
use smarty_trader.Risk.{RiskSettings}
use smarty_trader.Sizing.{calculate_quantity, sizing_price, spendable, fill_price}
use smarty_trader.Sizing.Whole.{
  planned, fits_cash, ≤ℤ_trans, calculate_quantity-buy, calculate_quantity-IsWhole,
}

-- The costs that `CostModel` accepts.
pub record IsNatural (slippage : ℤ) (m : CostModel ℤ) : Type 0 where
  pub slip : ℕ
  pub fee : ℕ
  pub minimum : ℕ
  pub fx : ℕ
  pub same : m ≡ costs slip fee minimum fx
  pub slippage_same : slippage ≡ pos slip

pub cost_model-IsNatural :
    (a b c e : ℤ) {m : CostModel ℤ} → cost_model a b c e ≡ some m → IsNatural a m
unfolding cost_model
cost_model-IsNatural (pos a) (pos b) (pos c) (pos e) h = record {
  slip = a;
  fee = b;
  minimum = c;
  fx = e;
  same = ground arith;
  slippage_same = refl;
}
cost_model-IsNatural (negsuc a) b c e h = absurd (ground arith)
cost_model-IsNatural (pos a) (negsuc b) c e h = absurd (ground arith)
cost_model-IsNatural (pos a) (pos b) (negsuc c) e h = absurd (ground arith)
cost_model-IsNatural (pos a) (pos b) (pos c) (negsuc e) h = absurd (ground arith)

module _ (slip fee minimum fx : ℕ) where
  bought_under :
      (n a g : ℕ)
      → zero_f <ℤ pos g
      → pos n ≤ℤ max_f (pos a ⊘ pos g) (pos 0)
      → pos n ⊗ pos g ≤ℤ pos a
  unfolding mul_ℤ div_ℤ
  bought_under n a g g_pos h =
      let under : n ≤ a * scale / g = ground arith in
      let product : n * g ≤ a * scale =
        (le-div_iff_mul-le {k = g} {x = n} {y = a * scale} (omega arith)).0 under in
      omega arith

  paid :
      (c n g : ℕ)
      → fee ≤ scale
      → zero_f <ℤ pos g
      → pos n
        ≤ℤ max_f (max_affordable_fill_notional (costs slip fee minimum fx) (pos c) ⊘ pos g) (pos 0)
      → (pos n ⊗ pos g) ⊕ total_fee (costs slip fee minimum fx) (pos n ⊗ pos g) ≤ℤ pos c
  unfolding mul_ℤ
  paid c n g small g_pos h =
      let top = if leb c 0 then 0 else most fee minimum fx c in
      let same : max_affordable_fill_notional (costs slip fee minimum fx) (pos c) ≡ pos top =
        max_affordable_pos slip fee minimum fx c in
      let under : pos n ⊗ pos g ≤ℤ pos top =
        bought_under n top g g_pos (subst (λ (a : ℤ). pos n ≤ℤ max_f (a ⊘ pos g) (pos 0)) same h) in
      max_affordable-fits slip fee minimum fx c (n * g / scale) small
        (subst (λ (a : ℤ). pos n ⊗ pos g ≤ℤ a) (sym same) under)

module _ (slip fee minimum fx : ℕ) where
  pays :
      (q g c : ℤ)
      → fee ≤ scale
      → pos 0 ≤ℤ q
      → zero_f <ℤ g
      → pos 0 ≤ℤ c
      → q ≤ℤ max_f (max_affordable_fill_notional (costs slip fee minimum fx) c ⊘ g) (pos 0)
      → (q ⊗ g) ⊕ total_fee (costs slip fee minimum fx) (q ⊗ g) ≤ℤ c
  pays (pos n) (pos g) (pos c) small q_pos g_pos c_pos h =
      paid slip fee minimum fx c n g small g_pos h
  pays (negsuc n) g c small q_pos g_pos c_pos h = absurd (omega arith)
  pays (pos n) (negsuc g) c small q_pos g_pos c_pos h = absurd (omega arith)
  pays (pos n) (pos g) (negsuc c) small q_pos g_pos c_pos h = absurd (omega arith)

spendable-bounds :
    (cash : ℤ) (cap : Option ℤ)
    → pos 0 ≤ℤ cash
    → (pos 0 ≤ℤ spendable cash cap) × (spendable cash cap ≤ℤ cash)
spendable-bounds cash none h = ground arith
spendable-bounds cash (some cap) h = ground arith

fill_pos : (slip p : ℕ) → 0 < p → zero_f <ℤ pos p ⊗ (one_f ⊕ pos slip)
unfolding mul_ℤ
fill_pos slip p h = rw (add_pos scale slip) (grind arith)

test_of_lt : (x : ℤ) → zero_f <ℤ x → (zero_f <? x) ≡ true
test_of_lt x h = ground arith

module _ (settings : RiskSettings ℤ) (signal : TradeSignal ℤ) (s : PortfolioState ℤ) (factor : ℤ)
    (cap : Option ℤ) where
  module _ (slip fee minimum fx p : ℕ) where
    abbrev m : CostModel ℤ
    m = costs slip fee minimum fx

    abbrev sized : ℤ
    sized = calculate_quantity settings signal s (some (pos p)) factor (some m) cap

    abbrev filled_at : ℤ
    filled_at = pos p ⊗ (one_f ⊕ pos slip)

    sized_under :
        0 < p
        → signal.action ≡ Action.buy
        → (zero_f <? filled_at) ≡ true
        → sized ≤ℤ max_f (max_affordable_fill_notional m (spendable s.cash cap) ⊘ filled_at) (pos 0)
    sized_under p_pos buy known =
        let price_same : sizing_price (some (pos p)) signal.stop_loss ≡ pos p = ground arith in
        let m_cash = max_affordable_fill_notional m (spendable s.cash cap) in
        let known' : (zero_f
              <? fill_price (some m) factor (sizing_price (some (pos p)) signal.stop_loss))
            ≡ true =
          subst (λ (x : ℤ). (zero_f <? x ⊗ (one_f ⊕ pos slip)) ≡ true) (sym price_same) known in
        let under = fits_cash settings signal s (some (pos p)) factor (some m) cap known' in
        subst (λ (q : ℤ). q ≤ℤ max_f (m_cash ⊘ filled_at) (pos 0))
          (sym (calculate_quantity-buy settings signal s (some (pos p)) factor (some m) cap buy))
          (subst
            (λ (x : ℤ).
              planned settings signal s (some (pos p)) factor (some m) cap
              ≤ℤ max_f (m_cash ⊘ (x ⊗ (one_f ⊕ pos slip))) (pos 0))
            price_same under)

    pub affords :
        (cash : ℤ)
        → 0 < p
        → fee ≤ scale
        → signal.action ≡ Action.buy
        → s.cash ≤ℤ cash
        → pos 0 ≤ℤ s.cash
        → (sized ⊗ filled_at) ⊕ total_fee m (sized ⊗ filled_at) ≤ℤ cash
    affords cash p_pos small buy less nonneg =
        let spent = spendable s.cash cap in
        let bounds = spendable-bounds s.cash cap nonneg in
        let g_pos = fill_pos slip p p_pos in
        let q_nonneg =
          (calculate_quantity-IsWhole settings signal s (some (pos p)) factor (some m) cap buy).1 in
        let under = sized_under p_pos buy (test_of_lt filled_at g_pos) in
        let total = (sized ⊗ filled_at) ⊕ total_fee m (sized ⊗ filled_at) in
        ≤ℤ_trans total spent cash
          (pays slip fee minimum fx sized filled_at spent small q_nonneg g_pos bounds.0 under)
          (≤ℤ_trans spent s.cash cash bounds.1 less)

  -- What `total_fee` and the fill price make of a sized entry, at the costs `m` and a slippage.
  abbrev pub Affords : ℤ → CostModel ℤ → ℤ → ℤ → Type 0
  Affords slippage m price cash =
      let q = calculate_quantity settings signal s (some price) factor (some m) cap in
      let at_price = price ⊗ (one_f ⊕ slippage) in
      (q ⊗ at_price) ⊕ total_fee m (q ⊗ at_price) ≤ℤ cash

  pub sized-Affords :
      (slippage : ℤ) (m : CostModel ℤ) (price cash : ℤ)
      → IsNatural slippage m
      → m.fee_pct ≤ℤ one_f
      → signal.action ≡ Action.buy
      → pos 0 ≤ℤ s.cash
      → s.cash ≤ℤ cash
      → pos 0 <ℤ price
      → Affords slippage m price cash
  sized-Affords slippage m (negsuc p) cash n small buy solvent enough price_pos =
      absurd (omega arith)
  sized-Affords slippage m (pos p) cash n small buy solvent enough price_pos =
      let natural = costs n.slip n.fee n.minimum n.fx in
      subst (λ (c : CostModel ℤ). c.fee_pct ≤ℤ one_f → Affords slippage c (pos p) cash) (sym n.same)
        (subst (λ (x : ℤ). natural.fee_pct ≤ℤ one_f → Affords x natural (pos p) cash)
          (sym n.slippage_same)
          (λ small'.
            affords n.slip n.fee n.minimum n.fx p cash (omega arith) (omega arith) buy enough
              solvent))
        small
