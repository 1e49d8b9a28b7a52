-- ===== src/Control/Saved.antt =====
-- From a payload that the control API accepts to the settings that the agent runs with.
use smarty_trader.Prelude.{
  ℕ, ◌≡◌, refl, sym, ◌∙◌, ap, Bool, true, false, ◌&&◌, String, Option, none, some, List, [], ◌∷◌,
  leb, or_else, arith, nat_beq, nat_beq_iff, if◌then◌else◌, if_cases, string_eq, ◌==◌,
}
use mathlib.Core.Option.{map as map_option}
use smarty_trader.Float.{Float, ◌=?◌}
use smarty_trader.Risk.{RiskSettings}
use smarty_trader.Control.{
  Baselines, AgentConfig, PaperCosts, ReasoningMode, RiskOverride, ExecutionOverride,
  SafeConfigOverrides, RiskField, Validated, fraction, within, below_one, holds, above_base,
  below_base, above_count, below_count, is_valid, is_risk_valid, loosened_risk_fields,
  pairs_not_quoted_in,
}
use smarty_trader.Control.Apply.{
  Live, Stored, judged, kept_or, traded_with, effective_pairs, unless_bad, costs_with, apply_agent,
  apply_costs, apply_llm, apply_risk, apply_overrides, apply_parsed, parse_overrides,
  parse_and_apply, validate_overrides_payload,
}
use smarty_trader.Control.Strip.{
  drop_same, drop_same_option, same_texts, same_mode, strip_risk, strip_execution, strip_llm,
  strip_noop_overrides,
}

judged-accepted :
    (valid : Bool) (loose : List RiskField) (bad : List String)
    → judged valid loose bad ≡ Validated.accepted
    → (valid ≡ true) × (loose ≡ []) × (bad ≡ [])
judged-accepted false loose bad h = absurd (ground (arith, h))
judged-accepted true (f ∷ fs) bad h = absurd (ground (arith, h))
judged-accepted true [] (p ∷ ps) h = absurd (ground (arith, h))
judged-accepted true [] [] h = (refl, refl, refl)

same_texts-eq : (xs ys : List String) → same_texts xs ys ≡ true → xs ≡ ys
same_texts-eq [] [] h = refl
same_texts-eq [] (y ∷ ys) h = absurd (ground (arith, h))
same_texts-eq (x ∷ xs) [] h = absurd (ground (arith, h))
same_texts-eq (x ∷ xs) (y ∷ ys) h = ground (arith, same_texts-eq xs ys, string_eq.test_iff x y)

same_mode-eq : (m n : ReasoningMode) → same_mode m n ≡ true → m ≡ n
same_mode-eq m n h = ground (arith, h)

nat_beq-eq : (m n : ℕ) → nat_beq m n ≡ true → m ≡ n
nat_beq-eq m n h = ground (arith, nat_beq_iff m n)

string-eq : (s t : String) → (s == t) ≡ true → s ≡ t
string-eq s t h = ground (arith, string_eq.test_iff s t)

-- dropping a value that the YAML has changes nothing once the YAML value stands in
or_else-drop_same :
    {A : Type 0} (same : A → A → Bool) (base : A) (o : Option A)
    → ((x y : A) → same x y ≡ true → x ≡ y)
    → or_else (drop_same same base o) base ≡ or_else o base
or_else-drop_same same base none h = refl
or_else-drop_same same base (some x) h =
    if_cases (λ o. or_else o base ≡ x) (same x base) (λ e. sym (h x base e)) (λ _. refl)

holds-drop_same :
    {A : Type 0} (p : A → Bool) (same : A → A → Bool) (base : A) (o : Option A)
    → holds p o ≡ true
    → holds p (drop_same same base o) ≡ true
holds-drop_same p same base none h = refl
holds-drop_same p same base (some x) h =
    if_cases (λ o. holds p o ≡ true) (same x base) (λ e. refl) (λ _. h)

and_parts : (a b : Bool) → (a && b) ≡ true → (a ≡ true) × (b ≡ true)
and_parts true b h = (refl, h)
and_parts false b h = absurd (ground (arith, h))

and_mono :
    {a b c e : Bool}
    → (a ≡ true → c ≡ true)
    → (b ≡ true → e ≡ true)
    → (a && b) ≡ true
    → (c && e) ≡ true
and_mono {a} {b} f g h = let (p, q) = and_parts a b h in ground (arith, f p, g q)

-- a limit that is not loose is applied, and dropping it first changes nothing
applied :
    {A : Type 0} (loose : Option A → Bool) (same : A → A → Bool) (base live : A) (o : Option A)
    → loose none ≡ false
    → loose o ≡ false
    → ((x y : A) → same x y ≡ true → x ≡ y)
    → (if loose (drop_same same base o) then live else or_else (drop_same same base o) base)
      ≡ or_else o base
applied loose same base live none hn h k = rw hn refl
applied loose same base live (some x) hn h k =
    if_cases (λ o. (if loose o then live else or_else o base) ≡ x) (same x base)
      (λ e. rw hn (sym (k x base e))) (λ _. rw h refl)

parsed :
    {F : Type 0} ⦃d : Float F⦄
    → (upper : String → String) (crypto : Bool) (b : Baselines F) (o : SafeConfigOverrides F)
      (live : Live F)
    → is_valid o ≡ true
    → parse_and_apply upper crypto b (Stored.fields o) live ≡ apply_overrides upper crypto b o live
unfolding parse_and_apply parse_overrides apply_parsed
parsed upper crypto b o live h =
    ap (λ v. apply_parsed upper crypto b (if v then some o else none) live) h

-- An agent follows the list that it is given, and stays with its old symbols where that is empty.
abbrev pub followed : List String → List String → List String
followed [] before = before
followed (x ∷ xs) before = x ∷ xs

traded_with-followed : (xs before : List String) → traded_with xs before ≡ followed xs before
traded_with-followed [] before = refl
traded_with-followed (x ∷ xs) before = refl

module _ {F : Type 0} ⦃d : Float F⦄ where
  -- what the operator asked for, over the YAML values
  pub configured : Bool → Baselines F → String → SafeConfigOverrides F → Live F → Live F
  configured crypto b hours o live =
      let pairs = or_else o.pairs b.agent.pairs in
      let symbols = or_else o.symbols b.agent.symbols in
      record {
        agent = record live.agent {
          interval_minutes = or_else o.interval_minutes b.agent.interval_minutes;
          market_hours = some (or_else o.market_hours hours);
          decision_history_limit = or_else o.decision_history_limit b.agent.decision_history_limit;
          pairs = pairs;
          symbols = symbols;
        };
        risk = record live.risk {
          max_position_pct = or_else o.risk.max_position_pct b.risk.max_position_pct;
          daily_loss_limit_pct = or_else o.risk.daily_loss_limit_pct b.risk.daily_loss_limit_pct;
          max_drawdown_pct = or_else o.risk.max_drawdown_pct b.risk.max_drawdown_pct;
          consecutive_losses_cooldown_minutes =
              or_else o.risk.consecutive_losses_cooldown_minutes
                b.risk.consecutive_losses_cooldown_minutes;
          max_open_positions = or_else o.risk.max_open_positions b.risk.max_open_positions;
          min_confidence = or_else o.risk.min_confidence b.risk.min_confidence;
        };
        paper = map_option (λ _. costs_with b.execution o.execution) live.paper;
        pipeline_history_limit = or_else o.decision_history_limit b.agent.decision_history_limit;
        llm = record {
          max_tokens = or_else o.llm.max_tokens b.llm.max_tokens;
          timeout_seconds = or_else o.llm.timeout_seconds b.llm.timeout_seconds;
          temperature = or_else o.llm.temperature b.llm.temperature;
          reasoning = or_else o.llm.reasoning b.llm.reasoning;
        };
        traded = followed (if crypto then pairs else symbols) live.traded;
      }

module _ {F : Type 0} ⦃d : Float F⦄ (exact : (x y : F) → (x =? y) ≡ true → x ≡ y) where
  effective_pairs-drop_same :
      (upper : String → String) (base live : AgentConfig) (o : Option (List String))
      → pairs_not_quoted_in upper (or_else o []) live.quote_currency ≡ []
      → effective_pairs upper base live (drop_same same_texts base.pairs o) ≡ or_else o base.pairs
  unfolding effective_pairs
  effective_pairs-drop_same upper base live none h = refl
  effective_pairs-drop_same upper base live (some ps) h =
      if_cases (λ o. effective_pairs upper base live o ≡ ps) (same_texts ps base.pairs)
        (λ e. sym (same_texts-eq ps base.pairs e)) (λ _. ap (λ bad. unless_bad bad base.pairs ps) h)

  is_risk_valid-strip :
      (b : RiskSettings F) (o : RiskOverride F)
      → is_risk_valid o ≡ true
      → is_risk_valid (strip_risk b o) ≡ true
  unfolding is_risk_valid strip_risk
  is_risk_valid-strip b o h = ground (
    arith,
    holds-drop_same fraction ◌=?◌ b.max_position_pct o.max_position_pct,
    holds-drop_same fraction ◌=?◌ b.daily_loss_limit_pct o.daily_loss_limit_pct,
    holds-drop_same fraction ◌=?◌ b.max_drawdown_pct o.max_drawdown_pct,
    holds-drop_same (leb 1) nat_beq b.max_open_positions o.max_open_positions,
    holds-drop_same within ◌=?◌ b.min_confidence o.min_confidence,
  )

  is_valid-strip :
      (b : Baselines F) (o : SafeConfigOverrides F)
      → is_valid o ≡ true
      → is_valid (strip_noop_overrides b o) ≡ true
  unfolding is_valid strip_noop_overrides strip_execution strip_llm
  is_valid-strip b o =
      and_mono
        (and_mono
          (and_mono
            (and_mono
              (and_mono
                (and_mono
                  (and_mono
                    (holds-drop_same (λ n. leb 1 n && leb n 1_440) nat_beq b.agent.interval_minutes
                      o.interval_minutes)
                    (holds-drop_same (λ n. leb n 100) nat_beq b.agent.decision_history_limit
                      o.decision_history_limit))
                  (is_risk_valid-strip b.risk o.risk))
                (holds-drop_same below_one ◌=?◌ b.execution.fee_pct o.execution.paper_fee_pct))
              (holds-drop_same below_one ◌=?◌ b.execution.slippage_pct
                o.execution.paper_slippage_pct))
            (holds-drop_same (λ n. leb 1_024 n && leb n 65_536) nat_beq b.llm.max_tokens
              o.llm.max_tokens))
          (holds-drop_same (λ n. leb 30 n && leb n 3_600) nat_beq b.llm.timeout_seconds
            o.llm.timeout_seconds))
        (holds-drop_same within ◌=?◌ b.llm.temperature o.llm.temperature)

  apply_risk-strip :
      (b : RiskSettings F) (o : RiskOverride F) (live : RiskSettings F)
      → loosened_risk_fields o b ≡ []
      → apply_risk b (strip_risk b o) live ≡ record live {
        max_position_pct = or_else o.max_position_pct b.max_position_pct;
        daily_loss_limit_pct = or_else o.daily_loss_limit_pct b.daily_loss_limit_pct;
        max_drawdown_pct = or_else o.max_drawdown_pct b.max_drawdown_pct;
        consecutive_losses_cooldown_minutes =
            or_else o.consecutive_losses_cooldown_minutes b.consecutive_losses_cooldown_minutes;
        max_open_positions = or_else o.max_open_positions b.max_open_positions;
        min_confidence = or_else o.min_confidence b.min_confidence;
      }
  unfolding apply_risk strip_risk loosened_risk_fields
  apply_risk-strip b o live h = λ i. record live {
    max_position_pct =
        applied (above_base b.max_position_pct) ◌=?◌ b.max_position_pct live.max_position_pct
          o.max_position_pct refl (ground arith) exact i;
    daily_loss_limit_pct =
        applied (above_base b.daily_loss_limit_pct) ◌=?◌ b.daily_loss_limit_pct
          live.daily_loss_limit_pct o.daily_loss_limit_pct refl (ground arith) exact i;
    max_drawdown_pct =
        applied (above_base b.max_drawdown_pct) ◌=?◌ b.max_drawdown_pct live.max_drawdown_pct
          o.max_drawdown_pct refl (ground arith) exact i;
    consecutive_losses_cooldown_minutes =
        applied (below_count b.consecutive_losses_cooldown_minutes) nat_beq
          b.consecutive_losses_cooldown_minutes live.consecutive_losses_cooldown_minutes
          o.consecutive_losses_cooldown_minutes refl (ground arith) nat_beq-eq i;
    max_open_positions =
        applied (above_count b.max_open_positions) nat_beq b.max_open_positions
          live.max_open_positions o.max_open_positions refl (ground arith) nat_beq-eq i;
    min_confidence =
        applied (below_base b.min_confidence) ◌=?◌ b.min_confidence live.min_confidence
          o.min_confidence refl (ground arith) exact i;
  }

  hours-kept :
      (base : Option String) (o live : Option String) (hours : String)
      → base ≡ some hours
      → kept_or (drop_same_option ◌==◌ base o) base live ≡ some (or_else o hours)
  hours-kept none o live hours h = absurd (ground (arith, h))
  hours-kept (some x) none live hours h = h
  hours-kept (some x) (some y) live hours h =
      if_cases (λ o. kept_or o (some x) live ≡ some y) (y == x)
        (λ e. ap some (sym (string-eq y x e))) (λ _. refl)

  apply_costs-strip :
      (b : PaperCosts F) (o : ExecutionOverride F) (live : Option (PaperCosts F))
      → apply_costs b (strip_execution b o) live ≡ map_option (λ _. costs_with b o) live
  unfolding apply_costs strip_execution
  apply_costs-strip b o none = refl
  apply_costs-strip b o (some live) = λ i. some (record {
    fee_pct = or_else-drop_same ◌=?◌ b.fee_pct o.paper_fee_pct exact i;
    slippage_pct = or_else-drop_same ◌=?◌ b.slippage_pct o.paper_slippage_pct exact i;
  })

  applied_strip :
      (upper : String → String) (crypto : Bool) (b : Baselines F) (hours : String)
      (o : SafeConfigOverrides F) (live : Live F)
      → b.agent.market_hours ≡ some hours
      → loosened_risk_fields o.risk b.risk ≡ []
      → pairs_not_quoted_in upper (or_else o.pairs []) live.agent.quote_currency ≡ []
      → apply_overrides upper crypto b (strip_noop_overrides b o) live
        ≡ configured crypto b hours o live
  unfolding apply_overrides apply_agent apply_llm strip_noop_overrides strip_llm configured
  applied_strip upper crypto b hours o live hh tight quoted =
      let pairs = effective_pairs-drop_same upper b.agent live.agent o.pairs quoted in
      let symbols = or_else-drop_same same_texts b.agent.symbols o.symbols same_texts-eq in
      let limit =
        or_else-drop_same nat_beq b.agent.decision_history_limit o.decision_history_limit
          nat_beq-eq in
      let traded =
        (λ i. traded_with (if crypto then pairs i else symbols i) live.traded)
        ∙ traded_with-followed
            (if crypto then or_else o.pairs b.agent.pairs else or_else o.symbols b.agent.symbols)
            live.traded in
      λ i. record {
        agent = record live.agent {
          interval_minutes =
              or_else-drop_same nat_beq b.agent.interval_minutes o.interval_minutes nat_beq-eq i;
          market_hours =
              hours-kept b.agent.market_hours o.market_hours live.agent.market_hours hours hh i;
          decision_history_limit = limit i;
          pairs = pairs i;
          symbols = symbols i;
        };
        risk = apply_risk-strip b.risk o.risk live.risk tight i;
        paper = apply_costs-strip b.execution o.execution live.paper i;
        pipeline_history_limit = limit i;
        llm = record {
          max_tokens = or_else-drop_same nat_beq b.llm.max_tokens o.llm.max_tokens nat_beq-eq i;
          timeout_seconds =
              or_else-drop_same nat_beq b.llm.timeout_seconds o.llm.timeout_seconds nat_beq-eq i;
          temperature = or_else-drop_same ◌=?◌ b.llm.temperature o.llm.temperature exact i;
          reasoning = or_else-drop_same same_mode b.llm.reasoning o.llm.reasoning same_mode-eq i;
        };
        traded = traded i;
      }

  -- Where the YAML names market hours, and numbers that compare as equal are equal: a payload that
  -- the control API accepts, stripped and stored, decides after the next application what runs. Each
  -- setting that can be overridden has the requested value or else the YAML one, whatever earlier
  -- overrides made of it; and the agent trades the resulting list of pairs, or of symbols, unless
  -- that list is empty: then it goes on with those that it traded before.
  pub saved-in_effect :
      (upper : String → String) (crypto : Bool) (b : Baselines F) (hours : String)
      (o : SafeConfigOverrides F) (live : Live F)
      → b.agent.market_hours ≡ some hours
      → validate_overrides_payload upper b.risk live.agent.quote_currency o ≡ Validated.accepted
      → parse_and_apply upper crypto b (Stored.fields (strip_noop_overrides b o)) live
        ≡ configured crypto b hours o live
  unfolding validate_overrides_payload
  saved-in_effect upper crypto b hours o live hh h =
      let (valid, tight, quoted) = judged-accepted _ _ _ h in
      parsed upper crypto b (strip_noop_overrides b o) live (is_valid-strip b o valid)
      ∙ applied_strip upper crypto b hours o live hh tight quoted
