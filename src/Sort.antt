-- ===== src/Sort.antt =====
-- `Array.prototype.sort` with a comparator: it is stable, and its result is fixed by the comparator
-- and the order of the input. Negative, 0 and positive answers are `lt`, `eq` and `gt`.
pub mod Order
mod Laws
pub use Order.{flip, IsOrder}
unfoldable pub use Order.{insert, sort}
pub use Laws.*
