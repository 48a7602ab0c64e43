-- ===== src/Arith.antt =====
-- The numbers of the program: Python floats, as an interface. `Arith F` has the operations that
-- the code uses, `IsOrdered` and `IsRounded` the facts of IEEE-754 arithmetic that proofs rest on.
mod Builtins
pub mod Fixed
pub mod Facts
pub use Builtins.*
