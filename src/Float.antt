-- ===== src/Float.antt =====
-- Python's numbers where the code computes with floats. The type and its
-- operations are parameters: a definition that computes with a price, an amount or a rate takes
-- them as an instance argument. An int that the code compares with a float, such as a bound of a
-- coin's settings, is a value of the same type, as Python compares the two.
-- `FloatLaws` states what the proofs use: facts of IEEE 754 about values that are finite.
mod Ops
mod Laws
pub mod Fixed
pub use Ops.*
pub use Laws.*
