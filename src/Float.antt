-- ===== src/Float.antt =====
-- Python's `float`, as a type with the operations that the code uses and, apart from them, the laws
-- that IEEE 754 gives them. `◌⊕◌ ◌⊖◌ ◌⊗◌ ◌⊘◌` are the rounded operations. No law says that an
-- operation is exact. `Fixed` (fixed-point numbers) shows that the laws can be met, runs the tests,
-- and is the type at which sums are exact; `Nan` adds a NaN to it.
mod Defs
mod Laws
mod Fixed
mod Nan
mod Sums
unfoldable pub use Defs.*
unfoldable pub use Laws.*
unfoldable pub use Fixed.*
unfoldable pub use Nan.*
unfoldable pub use Sums.*
