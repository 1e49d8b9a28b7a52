-- ===== src/Risk/Rules.antt =====
-- The rules for an entry, apart from the code, and that each check decides its rule.
use mathlib.Core.Path.{subst, sym}
use mathlib.Core.Option.{some-injective}
use smarty_trader.Prelude.{
  ℕ, ◌≡◌, refl, ◌↔◌, ◌⊎◌, inl, inr, true, false, Option, none, some, List, [], ◌∷◌, arith, any,
  length, leb, ◌==◌, string_eq, Bool-cases, All,
}
use smarty_trader.Float.{Float, ◌⊕◌, ◌⊗◌, ◌⊖◌, ◌⊘◌, ◌<?◌, ◌≤?◌, zero_f}
use smarty_trader.Models.{
  TradeSignal, Position, PortfolioState, RiskResult, RiskVerdict, total_value, is_buy,
}
use smarty_trader.Risk.{RiskSettings, long_exposure}
use smarty_trader.Risk.Trackers.{
  RiskEngine, note_equity, in_cooldown, daily_pnl_pct, reset_if_new_day, update_latest_value,
}
use smarty_trader.Risk.Checks.{
  check_confidence, check_max_positions, check_position_size, check_drawdown, check_cooldown,
  check_peak, check_planned, check_geometry, check_stop, daily_verdict, size_cap, just_below_one,
  just_above_one, peak_or, first_rejected,
}

pub first_rejected_iff :
    (rs : List RiskResult)
    → ((first_rejected rs).verdict ≡ RiskVerdict.approved)
      ↔ All (λ (r : RiskResult). r.verdict ≡ RiskVerdict.approved) rs
unfolding first_rejected
first_rejected_iff [] = (λ h. tt, λ h. refl)
first_rejected_iff (r ∷ rs) = ground (arith, first_rejected_iff rs)

module _ {F : Type 0} ⦃d : Float F⦄ where
  -- An entry at a known price keeps to its stop and target.
  pub record IsGeometric (settings : RiskSettings F) (stop : F) (target : Option F) (price : F)
      : Type 0 where
    pub stop_below : (price ≤? stop) ≡ false
    pub target_above : (t : F) → target ≡ some t → (t ≤? price) ≡ false
    pub stop_near : (settings.max_stop_distance_pct <? (price ⊖ stop) ⊘ price) ≡ false

  -- The rules of `RiskSettings` for a BUY of `planned` at `price`, at the time `now`, with the clock
  -- at `later` when the cooldown is read. The daily loss is taken after the day has been rolled, and
  -- the drawdown from the peak that counts this value in.
  pub record EntryAllowed (now later : ℕ) (signal : TradeSignal F) (s : PortfolioState F)
      (planned price : Option F) (e : RiskEngine F) : Type 0 where
    pub confident : (signal.confidence <? e.settings.min_confidence) ≡ false
    pub room :
        (any (λ (p : Position F). p.symbol == signal.symbol) s.positions ≡ true)
        ⊎ (leb e.settings.max_open_positions (length s.positions) ≡ false)
    pub solvent : (total_value s ≤? zero_f) ≡ false
    pub not_full : (size_cap e.settings s ⊗ just_below_one ≤? long_exposure s signal.symbol) ≡ false
    pub planned_fits :
        (n : F)
        → planned ≡ some n
        → (size_cap e.settings s ⊗ just_above_one <? long_exposure s signal.symbol ⊕ n) ≡ false
    pub day_loss_small :
        (x : F)
        → daily_pnl_pct
            (update_latest_value (total_value s) (reset_if_new_day now (total_value s) e.daily))
          ≡ some x
        → (x ≤? d.neg (e.settings.daily_loss_limit_pct ⊗ just_below_one)) ≡ false
    pub drawdown_small :
        let peak = peak_or (total_value s) (note_equity (total_value s) e).peak_equity in
        (e.settings.max_drawdown_pct <? (peak ⊖ total_value s) ⊘ peak) ≡ false
    pub not_cooling : in_cooldown later e.losses ≡ false
    pub stopped :
        (stop : F) × (signal.stop_loss ≡ some stop)
        × ((p : F)
            → price ≡ some p
            → (zero_f <? p) ≡ true
            → IsGeometric e.settings stop signal.take_profit p)

  pub check_confidence_iff :
      (settings : RiskSettings F) (signal : TradeSignal F)
      → ((check_confidence settings signal).verdict ≡ RiskVerdict.approved)
        ↔ ((signal.confidence <? settings.min_confidence) ≡ false)
  unfolding check_confidence
  check_confidence_iff settings signal = ground arith

  pub check_max_positions_iff :
      (settings : RiskSettings F) (signal : TradeSignal F) (s : PortfolioState F)
      → ((check_max_positions settings signal s).verdict ≡ RiskVerdict.approved) ↔ (
          (any (λ (p : Position F). p.symbol == signal.symbol) s.positions ≡ true)
          ⊎ (leb settings.max_open_positions (length s.positions) ≡ false))
  unfolding check_max_positions
  check_max_positions_iff settings signal s = ground arith

  pub check_planned_iff :
      (cap existing : F) (planned : Option F)
      → ((check_planned cap existing planned).verdict ≡ RiskVerdict.approved)
        ↔ ((n : F) → planned ≡ some n → (cap ⊗ just_above_one <? existing ⊕ n) ≡ false)
  unfolding check_planned
  check_planned_iff cap existing none = (λ h n e. cc, λ h. refl)
  check_planned_iff cap existing (some n) = (λ h m e. ground arith, λ h. ground (arith, h n refl))

  pub daily_verdict_iff :
      (settings : RiskSettings F) (pnl : Option F)
      → ((daily_verdict settings pnl).verdict ≡ RiskVerdict.approved) ↔ (
          (x : F)
          → pnl ≡ some x
          → (x ≤? d.neg (settings.daily_loss_limit_pct ⊗ just_below_one)) ≡ false)
  unfolding daily_verdict
  daily_verdict_iff settings none = (λ h n e. cc, λ h. refl)
  daily_verdict_iff settings (some n) = (λ h m e. ground arith, λ h. ground (arith, h n refl))

  pub check_geometry_iff :
      (settings : RiskSettings F) (stop : F) (target : Option F) (price : F)
      → ((check_geometry settings stop target price).verdict ≡ RiskVerdict.approved)
        ↔ IsGeometric settings stop target price
  unfolding check_geometry
  check_geometry_iff settings stop none price = (
    λ h. record { stop_below = ground arith; target_above = λ t e. cc; stop_near = ground arith },
    λ g. ground arith,
  )
  check_geometry_iff settings stop (some t) price = (
    λ h. record {
      stop_below = ground arith;
      target_above = λ u e. ground arith;
      stop_near = ground arith;
    },
    λ g. ground (arith, g.target_above t refl),
  )

  unknown_known :
      (price p : F) → some price ≡ some p → (zero_f <? price) ≡ false → (zero_f <? p) ≡ true → ⊥
  unknown_known price p e u k = ground arith

  -- the last rule, on the fields that it reads
  abbrev pub Stopped : RiskSettings F → Option F → Option F → Option F → Type 0
  Stopped settings stop_loss target price =
      (stop : F) × (stop_loss ≡ some stop)
      × ((p : F) → price ≡ some p → (zero_f <? p) ≡ true → IsGeometric settings stop target p)

  pub check_stop_iff :
      (settings : RiskSettings F) (stop_loss target price : Option F)
      → ((check_stop settings stop_loss target price).verdict ≡ RiskVerdict.approved)
        ↔ Stopped settings stop_loss target price
  unfolding check_stop
  check_stop_iff settings none target price = (λ h. cc, λ g. cc g.1)
  check_stop_iff settings (some stop) target none = (λ h. (stop, refl, λ p e. cc), λ g. refl)
  check_stop_iff settings (some stop) target (some price) = elim (Bool-cases (zero_f <? price)) [
    | inl known ↦ (
      λ h. (
        stop,
        refl,
        λ p e k.
            subst (IsGeometric settings stop target) (some-injective _ _ e)
              ((check_geometry_iff settings stop target price).0 (rw known at h)),
      ),
      λ g.
          rw (check_stop, known)
            ((check_geometry_iff settings stop target price).1 (
              subst (λ (st : F). IsGeometric settings st target price)
                (sym (some-injective _ _ g.1)) (g.2 price refl known))),
    )
    | inr unknown ↦ (
      λ h. (stop, refl, λ p e k. absurd (unknown_known price p e unknown k)),
      λ g. rw (check_stop, unknown),
    )
  ]

  pub check_position_size_iff :
      (settings : RiskSettings F) (signal : TradeSignal F) (s : PortfolioState F)
      (planned : Option F)
      → is_buy signal.action ≡ true
      → ((check_position_size settings signal s planned).verdict ≡ RiskVerdict.approved) ↔ (
          ((total_value s ≤? zero_f) ≡ false)
          × ((size_cap settings s ⊗ just_below_one ≤? long_exposure s signal.symbol) ≡ false)
          × ((n : F)
              → planned ≡ some n
              → (size_cap settings s ⊗ just_above_one <? long_exposure s signal.symbol ⊕ n)
                ≡ false))
  unfolding check_position_size
  check_position_size_iff settings signal s planned buy =
      let fits = check_planned_iff (size_cap settings s) (long_exposure s signal.symbol) planned in
      (λ h. (ground arith, ground arith, fits.0 (ground arith)), λ g. ground (arith, fits.1 g.2))

  pub check_drawdown_iff :
      (s : PortfolioState F) (e : RiskEngine F)
      → (total_value s ≤? zero_f) ≡ false
      → ((check_drawdown s e).0.verdict ≡ RiskVerdict.approved) ↔ (
          let peak = peak_or (total_value s) (note_equity (total_value s) e).peak_equity in
          (e.settings.max_drawdown_pct <? (peak ⊖ total_value s) ⊘ peak) ≡ false)
  unfolding check_drawdown check_peak
  check_drawdown_iff s e solvent = ground arith

  pub check_cooldown_iff :
      (now : ℕ) (e : RiskEngine F)
      → ((check_cooldown now e).verdict ≡ RiskVerdict.approved) ↔ (in_cooldown now e.losses ≡ false)
  unfolding check_cooldown
  check_cooldown_iff now e = ground arith
