-- ===== src/Models.antt =====
-- src/core/models.py: the data that the agent's parts exchange. A `datetime` is aware UTC, in whole
-- microseconds since the first moment of year 1, and a text is a `String`.
mod Market
mod Orders
mod Book
pub use Market.*
pub use Orders.*
unfoldable pub use Book.*
