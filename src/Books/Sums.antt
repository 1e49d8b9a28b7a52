-- ===== src/Books/Sums.antt =====
-- The books of the sleeves add up: no position is counted twice or left out.
use mathlib.Core.Path.{subst}
use smarty_trader.Prelude.{
  ℕ, ◌≡◌, refl, sym, ◌∙◌, ap, Bool, true, false, ◌&&◌, String, Option, none, some, List, [], ◌∷◌,
  map, select, All, ◌==◌, string_eq, if◌then◌else◌, if_cases, Bool-cases, inl, inr, arith,
}
use smarty_trader.Prelude.Dict.{Dict, get_or}
use smarty_trader.Prelude.Keys.{member, NoRepeats}
use smarty_trader.Prelude.Int.{ℤ, pos, ◌+ℤ◌, ◌-ℤ◌, int_laws}
use smarty_trader.Float.{fixed, sum, sum_f, sum_f-eq-sum, ◌⊗◌}
use smarty_trader.Models.{Position, PortfolioState, pnl, market_value, total_value}
use smarty_trader.Risk.Trackers.{RiskEngine}
use smarty_trader.Books.{SleevesSettings, names, is_open}
use smarty_trader.Books.Owners.{Owned}
use smarty_trader.Books.Equity.{
  Allocation, ClosingFill, equity, book_of, sleeve_equity, realized_since, record_each,
  record_snapshots, owned_by, is_owner,
}

exchange : (a b c e : ℤ) → (a +ℤ b) +ℤ (c +ℤ e) ≡ (a +ℤ c) +ℤ (b +ℤ e)
exchange a b c e = omega int_laws

add_zero : (a : ℤ) → a +ℤ pos 0 ≡ a
add_zero a = omega int_laws

zero_add : (a : ℤ) → pos 0 +ℤ a ≡ a
zero_add a = omega int_laws

sum-add :
    {A : Type 0} (f g : A → ℤ) (xs : List A)
    → sum (map (λ x. f x +ℤ g x) xs) ≡ sum (map f xs) +ℤ sum (map g xs)
sum-add f g [] = omega int_laws
sum-add f g (x ∷ xs) =
    ap (λ s. (f x +ℤ g x) +ℤ s) (sum-add f g xs)
    ∙ exchange (f x) (g x) (sum (map f xs)) (sum (map g xs))

sum-zero : {A : Type 0} (xs : List A) → sum (map (λ (x : A). pos 0) xs) ≡ pos 0
sum-zero [] = refl
sum-zero (x ∷ xs) = ap (λ s. pos 0 +ℤ s) (sum-zero xs) ∙ zero_add (pos 0)

-- the share of one name among distinct ones
abbrev share : String → ℤ → String → ℤ
share m v n = if m == n then v else pos 0

differs : (m n : String) (ns : List String) → member m (n ∷ ns) ≡ false → (m == n) ≡ false
differs m n ns h = ground (arith, string_eq.test_iff m n, string_eq.test_iff n m)

in_rest :
    (m n : String) (ns : List String)
    → (m == n) ≡ false
    → member m (n ∷ ns) ≡ true
    → member m ns ≡ true
in_rest m n ns ne h = ground (arith, string_eq.test_iff m n, string_eq.test_iff n m)

sum-share_absent :
    (m : String) (v : ℤ) (ns : List String) → member m ns ≡ false → sum (map (share m v) ns) ≡ pos 0
sum-share_absent m v [] h = refl
sum-share_absent m v (n ∷ ns) h =
    ap (λ s. share m v n +ℤ s) (sum-share_absent m v ns (ground arith))
    ∙ add_zero (share m v n)
    ∙ ap (λ b. if b then v else pos 0) (differs m n ns h)

sum-share :
    (m : String) (v : ℤ) (ns : List String)
    → NoRepeats ns
    → member m ns ≡ true
    → sum (map (share m v) ns) ≡ v
sum-share m v [] u h = absurd (ground (arith, h))
sum-share m v (n ∷ ns) u h =
    if_cases {A = ℤ} (λ x. x +ℤ sum (map (share m v) ns) ≡ v) (m == n)
      (λ e.
        ap (λ s. v +ℤ s)
          (sum-share_absent m v ns
            (subst (λ x. member x ns ≡ false) (sym ((string_eq.test_iff m n).0 e)) u.0))
        ∙ add_zero v)
      (λ ne. zero_add (sum (map (share m v) ns)) ∙ sum-share m v ns u.1 (in_rest m n ns ne h))

abbrev equity_from : ℤ → ℤ → ℤ → ℤ → ℤ
equity_from c r u m = (c +ℤ r +ℤ u) -ℤ m +ℤ pos 0 +ℤ m

equity_from-eq : (c r u m : ℤ) → equity_from c r u m ≡ c +ℤ r +ℤ u
equity_from-eq c r u m = omega int_laws

equity-book_of :
    (a : Allocation ℤ) (name : String) (owned : List (Position ℤ)) (realized : ℤ)
    → equity (book_of a name owned realized)
      ≡ (get_or name (pos 0) a.weights ⊗ a.base_equity) +ℤ realized +ℤ sum (map pnl owned)
unfolding equity book_of total_value market_value
equity-book_of a name owned realized =
    ap
      (λ u.
        equity_from (get_or name (pos 0) a.weights ⊗ a.base_equity) realized u
          (sum_f (map market_value owned)))
      (sum_f-eq-sum (map pnl owned))
    ∙ equity_from-eq _ realized (sum (map pnl owned)) (sum_f (map market_value owned))

abbrev owner_test : String → Option String → Bool
owner_test n o = elim o [ none ↦ false | some m ↦ m == n ]

-- what a sleeve earns with a position: all of its profit, if it owns it
abbrev earned : Dict String String → Position ℤ → String → ℤ
earned owned p n = if is_open p && is_owner owned n p then pnl p else pos 0

sum-picked :
    (b : Bool) (p : Position ℤ) (ps : List (Position ℤ))
    → sum (map pnl (if b then p ∷ ps else ps)) ≡ (if b then pnl p else pos 0) +ℤ sum (map pnl ps)
sum-picked true p ps = refl
sum-picked false p ps = sym (zero_add (sum (map pnl ps)))

picked-All :
    (P : Position ℤ → Type 0) (b : Bool) (p : Position ℤ) (ps : List (Position ℤ))
    → All P (if b then p ∷ ps else ps)
    → (b ≡ true → P p) × All P ps
picked-All P true p ps h = (λ _. h.0, h.1)
picked-All P false p ps h = (λ e. absurd (ground (arith, e)), h)

map-map :
    {A B : Type 0} (f : B → ℤ) (g : A → B) (xs : List A) → map f (map g xs) ≡ map (λ x. f (g x)) xs
map-map f g [] = refl
map-map f g (x ∷ xs) = ap (λ l. f (g x) ∷ l) (map-map f g xs)

sum-ext :
    {A : Type 0} (f g : A → ℤ) (xs : List A)
    → ((x : A) → f x ≡ g x)
    → sum (map f xs) ≡ sum (map g xs)
sum-ext f g [] h = refl
sum-ext f g (x ∷ xs) h = λ i. h x i +ℤ sum-ext f g xs h i

-- Over distinct names, a position is earned once if it is open and has an owner among them.
sum-earned :
    (s : SleevesSettings ℤ) (owned : Dict String String) (p : Position ℤ)
    → NoRepeats (names s)
    → (is_open p ≡ true → Owned s owned p.symbol)
    → sum (map (earned owned p) (names s)) ≡ (if is_open p then pnl p else pos 0)
sum-earned s owned p u h = elim (Bool-cases (is_open p)) [
  | inl e ↦
      let (m, l, k) = h e in
      sum-ext (earned owned p) (share m (pnl p)) (names s)
        (λ n. λ i. if e i && owner_test n (l i) then pnl p else pos 0)
      ∙ sum-share m (pnl p) (names s) u k
      ∙ sym (ap (λ b. if b then pnl p else pos 0) e)
  | inr e ↦
      sum-ext (earned owned p) (λ n. pos 0) (names s)
        (λ n. λ i. if e i && is_owner owned n p then pnl p else pos 0)
      ∙ sum-zero (names s)
      ∙ sym (ap (λ b. if b then pnl p else pos 0) e)
]

-- the profit of all open positions
pub open_pnl : List (Position ℤ) → ℤ
open_pnl ps = sum (map pnl (select is_open ps))

sum-profits :
    (s : SleevesSettings ℤ) (owned : Dict String String) (ps : List (Position ℤ))
    → NoRepeats (names s)
    → All (λ (p : Position ℤ). Owned s owned p.symbol) (select is_open ps)
    → sum (map (λ n. sum (map pnl (owned_by owned n ps))) (names s)) ≡ open_pnl ps
unfolding open_pnl
sum-profits s owned [] u h = sum-zero (names s)
sum-profits s owned (p ∷ ps) u h =
    let (first, rest) =
      picked-All (λ q. Owned s owned q.symbol) (is_open p) p (select is_open ps) h in
    let others = λ (n : String). sum (map pnl (owned_by owned n ps)) in
    sum-ext (λ n. sum (map pnl (owned_by owned n (p ∷ ps)))) (λ n. earned owned p n +ℤ others n)
      (names s) (λ n. sum-picked (is_open p && is_owner owned n p) p (owned_by owned n ps))
    ∙ sum-add (earned owned p) others (names s)
    ∙ (λ i. sum-earned s owned p u first i +ℤ sum-profits s owned ps u rest i)
    ∙ sym (sum-picked (is_open p) p (select is_open ps))

-- each sleeve's share of the capital and its realised profit
pub capital_of : Allocation ℤ → String → ℤ
capital_of a n = get_or n (pos 0) a.weights ⊗ a.base_equity

books-record_each :
    (a : Allocation ℤ) (fills : List (ClosingFill ℤ)) (owned : Dict String String)
    (portfolio : PortfolioState ℤ) (now : ℕ) (ns : List String)
    (engines : Dict String (RiskEngine ℤ))
    → (record_each a fills owned portfolio now ns engines).0
      ≡ map (sleeve_equity a fills owned portfolio) ns
unfolding record_each
books-record_each a fills owned portfolio now [] engines = refl
books-record_each a fills owned portfolio now (n ∷ ns) engines =
    ap (λ l. sleeve_equity a fills owned portfolio n ∷ l)
      (books-record_each a fills owned portfolio now ns _)

-- With exact sums, distinct sleeves and an owner for each open position: the equities that a cycle
-- records add up to the shares of the capital, all realised profit of the sleeves since the
-- allocation, and the profit of all open positions, each counted once.
pub record_snapshots-sum :
    (s : SleevesSettings ℤ) (a : Allocation ℤ) (fills : List (ClosingFill ℤ))
    (owned : Dict String String) (portfolio : PortfolioState ℤ) (now : ℕ)
    (engines : Dict String (RiskEngine ℤ))
    → NoRepeats (names s)
    → All (λ (p : Position ℤ). Owned s owned p.symbol) (select is_open portfolio.positions)
    → sum (map equity (record_snapshots s (some a) fills owned portfolio now engines).0)
      ≡ sum (map (capital_of a) (names s))
        +ℤ sum (map (realized_since fills a.created_at) (names s))
        +ℤ open_pnl portfolio.positions
unfolding record_snapshots capital_of sleeve_equity
record_snapshots-sum s a fills owned portfolio now engines u h =
    let realized = realized_since fills a.created_at in
    let unrealized = λ (n : String). sum (map pnl (owned_by owned n portfolio.positions)) in
    ap (λ l. sum (map equity l)) (books-record_each a fills owned portfolio now (names s) engines)
    ∙ ap sum (map-map equity (sleeve_equity a fills owned portfolio) (names s))
    ∙ sum-ext (λ n. equity (sleeve_equity a fills owned portfolio n))
        (λ n. capital_of a n +ℤ realized n +ℤ unrealized n) (names s)
        (λ n. equity-book_of a n (owned_by owned n portfolio.positions) (realized n))
    ∙ sum-add (λ n. capital_of a n +ℤ realized n) unrealized (names s)
    ∙ (λ i.
        sum-add (capital_of a) realized (names s) i
        +ℤ sum-profits s owned portfolio.positions u h i)
