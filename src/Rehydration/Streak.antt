-- ===== src/Rehydration/Streak.antt =====
-- The streak of a restarted agent against the one that it had before.
use Prim.Native.Nat.{min}
use smarty_trader.Prelude.{
  ℕ, zero, suc, ◌+◌, ◌-◌, ◌≤◌, ◌≡◌, refl, sym, ap, ◌∙◌, Bool, true, false, not, ◌||◌, Option, none,
  some, List, [], ◌∷◌, map, All, leb, is_some, or_else, if◌then◌else◌, if_cases, arith,
}
use mathlib.Core.Option.{map as map_option}
use smarty_trader.Prelude.Slices.{take, take-All}
use smarty_trader.Float.{Float, IsOrdered, ◌<?◌, ◌≤?◌, ◌≼◌, zero_f}
use smarty_trader.Risk.Trackers.{RiskEngine, ConsecutiveLossTracker, restore_loss_streak, restore}
use smarty_trader.Risk.Streak.{Closed, run_length, armed_until, after_trades, after_trades-streak}
use smarty_trader.Rehydration.{
  StoredOrder, outcome_of, trailing_losses, cooldown_of, rehydrate_loss_streak,
}

plus_zero : (n : ℕ) → n ≡ n + 0
plus_zero n = omega arith

known : (x : Option ℕ) → is_some x ≡ true → x ≡ some (or_else x 0)
known none h = absurd (ground (arith, h))
known (some t) h = refl

after_loss : (won : Bool) (n : ℕ) → won ≡ false → 1 + n ≡ (if won then 0 else suc n)
after_loss won n h = ground arith

time_of_loss : (won : Bool) (t : ℕ) → won ≡ false → some t ≡ (if won then none else some t)
time_of_loss won t h = ground arith

no_loss : (won : Bool) (n : ℕ) → won ≡ true → 0 ≡ (if won then 0 else suc n)
no_loss won n h = ground arith

no_time : (won : Bool) (t : ℕ) → won ≡ true → none ≡ (if won then none else some t)
no_time won t h = ground arith

module _ {F : Type 0} ⦃d : Float F⦄ where
  -- a stored closing fill as a trade, recorded at the time that stands on it
  abbrev pub closed_of : StoredOrder F → Closed
  closed_of o = record {
    recorded_at = or_else (outcome_of o).1 0;
    profitable = zero_f ≤? o.realized_pnl;
  }

  -- Its time is known and its profit is a number.
  abbrev pub IsRecorded : StoredOrder F → Type 0
  IsRecorded o =
      (is_some (outcome_of o).1 ≡ true)
      × ((zero_f {F = F}) ≼ zero_f)
      × (o.realized_pnl ≼ o.realized_pnl)

  -- The trades that the agent recorded, at times of its own clock, are those of the stored fills.
  abbrev pub AreOf : List Closed → List (StoredOrder F) → Type 0
  AreOf [] [] = Unit
  AreOf [] (o ∷ rows) = ⊥
  AreOf (t ∷ trades) [] = ⊥
  AreOf (t ∷ trades) (o ∷ rows) = (t.profitable ≡ (zero_f ≤? o.realized_pnl)) × AreOf trades rows

  same_length :
      (trades : List Closed) (rows : List (StoredOrder F))
      → AreOf trades rows
      → run_length trades ≡ run_length (map closed_of rows)
  unfolding run_length
  same_length [] [] h = refl
  same_length [] (o ∷ rows) h = absurd h
  same_length (t ∷ trades) [] h = absurd h
  same_length (t ∷ trades) (o ∷ rows) h = ground (arith, same_length trades rows h.1)

  -- the time between the record of the newest trade and the fill that is stored for it
  abbrev pub moved : List Closed → List (StoredOrder F) → ℕ → ℕ
  moved [] rows until = until
  moved (t ∷ trades) [] until = until
  moved (t ∷ trades) (o ∷ rows) until = until + or_else (outcome_of o).1 0 - t.recorded_at

  same_armed :
      (threshold pause : ℕ) (trades : List Closed) (rows : List (StoredOrder F))
      → AreOf trades rows
      → armed_until threshold pause (map closed_of rows)
        ≡ map_option (moved trades rows) (armed_until threshold pause trades)
  unfolding armed_until
  same_armed threshold pause [] [] h = refl
  same_armed threshold pause [] (o ∷ rows) h = absurd h
  same_armed threshold pause (t ∷ trades) [] h = absurd h
  same_armed threshold pause (t ∷ trades) (o ∷ rows) h = ground (arith, same_length trades rows h.1)

  abbrev run : List (StoredOrder F) → ℕ
  run rows = run_length (map closed_of rows)

  run-take : (n : ℕ) (rows : List (StoredOrder F)) → run (take n rows) ≡ min n (run rows)
  unfolding run_length
  run-take zero rows = omega arith
  run-take (suc n) [] = omega arith
  run-take (suc n) (o ∷ rows) = ground (arith, run-take n rows)

  longer :
      (o : StoredOrder F) (rows : List (StoredOrder F)) (streak : ℕ)
      → (zero_f ≤? o.realized_pnl) ≡ false
      → suc streak + run rows ≡ streak + run (o ∷ rows)
  unfolding run_length
  longer o rows streak e = ground arith

  same_run :
      (o : StoredOrder F) (rows : List (StoredOrder F)) (streak : ℕ)
      → (zero_f ≤? o.realized_pnl) ≡ true
      → streak ≡ streak + run (o ∷ rows)
  unfolding run_length
  same_run o rows streak e = ground arith

  module _ (laws : IsOrdered F) where
    is_loss :
        (o : StoredOrder F)
        → IsRecorded o
        → (o.realized_pnl <? zero_f) ≡ not (zero_f ≤? o.realized_pnl)
    is_loss o h = laws.lt-eq-not-le o.realized_pnl zero_f h.2 h.1

    trailing-known :
        (rows : List (StoredOrder F)) (streak t : ℕ)
        → All IsRecorded rows
        → trailing_losses (map outcome_of rows) streak (some t) ≡ (streak + run rows, some t)
    unfolding trailing_losses run_length outcome_of
    trailing-known [] streak t h = λ i. (plus_zero streak i, some t)
    trailing-known (o ∷ rows) streak t h =
        if_cases {A = ℕ × Option ℕ} (λ x. x ≡ (streak + run (o ∷ rows), some t))
          (o.realized_pnl <? zero_f)
          (λ e.
            trailing-known rows (suc streak) t h.1
            ∙ (λ i. (longer o rows streak (ground (arith, is_loss o h.0)) i, some t)))
          (λ e. λ i. (same_run o rows streak (ground (arith, is_loss o h.0)) i, some t))

    abbrev losses_from : RiskEngine F → ℕ × Option ℕ → ConsecutiveLossTracker
    losses_from e found =
        let cooldown =
          cooldown_of e.settings.consecutive_losses_threshold
            e.settings.consecutive_losses_cooldown_minutes found.0 found.1 in
        (if leb 1 found.0 || is_some cooldown
          then restore_loss_streak found.0 cooldown e
          else e).losses

    newest : List (StoredOrder F) → Option ℕ
    newest [] = none
    newest (o ∷ rows) = if zero_f ≤? o.realized_pnl then none else some (or_else (outcome_of o).1 0)

    trailing-fresh :
        (rows : List (StoredOrder F))
        → All IsRecorded rows
        → trailing_losses (map outcome_of rows) 0 none ≡ (run rows, newest rows)
    unfolding trailing_losses run_length newest outcome_of
    trailing-fresh [] h = refl
    trailing-fresh (o ∷ rows) h =
        let t = or_else (outcome_of o).1 0 in
        let loss = is_loss o h.0 in
        if_cases {A = ℕ × Option ℕ} (λ x. x ≡ (run (o ∷ rows), newest (o ∷ rows)))
          (o.realized_pnl <? zero_f)
          (λ e.
            ap (trailing_losses (map outcome_of rows) 1) (known (outcome_of o).1 h.0.0)
            ∙ trailing-known rows 1 t h.1
            ∙ (λ i. (
              after_loss (zero_f ≤? o.realized_pnl) (run rows) (ground (arith, loss)) i,
              time_of_loss (zero_f ≤? o.realized_pnl) t (ground (arith, loss)) i,
            )))
          (λ e. λ i. (
            no_loss (zero_f ≤? o.realized_pnl) (run rows) (ground (arith, loss)) i,
            no_time (zero_f ≤? o.realized_pnl) t (ground (arith, loss)) i,
          ))

    newest-take : (n : ℕ) (rows : List (StoredOrder F)) → newest (take (suc n) rows) ≡ newest rows
    unfolding newest
    newest-take n [] = refl
    newest-take n (o ∷ rows) = refl

    cooldown-armed :
        (threshold pause : ℕ) (rows : List (StoredOrder F))
        → threshold ≤ 50
        → cooldown_of threshold pause (min 50 (run rows)) (newest rows)
          ≡ armed_until threshold pause (map closed_of rows)
    unfolding newest armed_until run_length
    cooldown-armed threshold pause [] h = refl
    cooldown-armed threshold pause (o ∷ rows) h = ground arith

    -- the tail of the function, from the streak and the cooldown that it found
    settled :
        (streak : ℕ) (cooldown : Option ℕ) (e : RiskEngine F)
        → e.losses ≡ record { consecutive_losses = 0; cooldown_until = none }
        → (if leb 1 streak || is_some cooldown
            then restore_loss_streak streak cooldown e
            else e).losses
          ≡ record { consecutive_losses = streak; cooldown_until = cooldown }
    unfolding restore_loss_streak restore
    settled streak cooldown e h = ground arith

    -- After a restart, where the stored closing fills are those of the trades that the agent
    -- recorded, their times are known, their profits are numbers, and the threshold is between 1 and
    -- 50: the streak is the one that the agent had, counted up to 50. A cooldown stands exactly if
    -- the agent had one, and it ends earlier or later than that one by just the time from the record
    -- of the newest trade to the fill that is stored for it.
    pub rehydrate_loss_streak-restored :
        (rows : List (StoredOrder F)) (trades : List Closed) (e : RiskEngine F)
        → AreOf trades rows
        → All IsRecorded rows
        → e.losses ≡ record { consecutive_losses = 0; cooldown_until = none }
        → 1 ≤ e.settings.consecutive_losses_threshold
        → e.settings.consecutive_losses_threshold ≤ 50
        → let before = (after_trades e trades).losses in
          let restarted = (rehydrate_loss_streak (some rows) e).losses in
          (restarted.consecutive_losses ≡ min 50 before.consecutive_losses)
          × (restarted.cooldown_until ≡ map_option (moved trades rows) before.cooldown_until)
    unfolding rehydrate_loss_streak
    rehydrate_loss_streak-restored rows trades e same h fresh low high =
        let threshold = e.settings.consecutive_losses_threshold in
        let pause = e.settings.consecutive_losses_cooldown_minutes in
        let found =
          trailing-fresh (take 50 rows) (take-All IsRecorded 50 rows h)
          ∙ (λ i. (run-take 50 rows i, newest-take 49 rows i)) in
        let armed =
          cooldown-armed threshold pause rows high ∙ same_armed threshold pause trades rows same in
        let before = after_trades-streak e trades fresh low in
        let restarted =
          ap (losses_from e) found
          ∙ settled (min 50 (run rows))
              (cooldown_of threshold pause (min 50 (run rows)) (newest rows)) e fresh in
        (
          ap (λ t. t.consecutive_losses) restarted
              ∙ ap (min 50) (sym (same_length trades rows same))
              ∙ sym (ap (λ t. min 50 t.consecutive_losses) before),
          ap (λ t. t.cooldown_until) restarted
              ∙ armed
              ∙ sym (ap (λ t. map_option (moved trades rows) t.cooldown_until) before),
        )
