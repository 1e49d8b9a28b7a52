-- ===== src/Symbols.antt =====
-- The two halves of a `BASE/QUOTE` symbol: `base_asset` of src/data/context/base.py, `base_currency`
-- of src/core/costs.py, and the quote half as src/execution/ccxt_executor.py reads it.
use Prim.Native.Char.{code}
use Prim.Native.String.{[] as empty, ◌∷◌ as ◌∷ₛ◌}
use smarty_trader.Prelude.{◌&&◌, String, nat_beq, ◌==◌, string_eq, if◌then◌else◌}
use smarty_trader.Candles.{is_space}

-- `s.split("/")[0]`
abbrev pub before_slash : String → String
before_slash empty = empty
before_slash (c ∷ₛ s) =
    let rest = before_slash s in if nat_beq (code c) 47 then empty else c ∷ₛ rest

abbrev pub trim_start : String → String
trim_start empty = empty
trim_start (c ∷ₛ s) = let rest = trim_start s in if is_space c then rest else c ∷ₛ s

abbrev pub trim_end : String → String
trim_end empty = empty
trim_end (c ∷ₛ s) = let rest = trim_end s in if rest == "" && is_space c then empty else c ∷ₛ rest

-- src/data/context/base.py
unfoldable pub base_asset : (String → String) → String → String
base_asset upper symbol = upper (trim_end (trim_start (before_slash symbol)))

unfoldable pub base_currency : (String → String) → String → String
base_currency upper symbol =
    if symbol == "" then "" else upper (trim_end (trim_start (before_slash symbol)))

abbrev pub after_slash : String → String
after_slash empty = empty
after_slash (c ∷ₛ s) = let rest = after_slash s in if nat_beq (code c) 47 then s else rest

-- `symbol.split("/")[1].upper() if "/" in symbol else ""`
unfoldable pub quote_currency : (String → String) → String → String
quote_currency upper symbol =
    let second = before_slash (after_slash symbol) in if second == "" then "" else upper second
