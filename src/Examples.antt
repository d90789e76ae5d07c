-- ===== src/Examples.antt =====
-- Concrete inputs: the fixtures, the tests and the instances of the theorems.
pub mod Fixtures
pub mod Jobs
pub mod Cancelling
pub mod Guarding
pub mod Retrieving
pub mod Fusing
pub mod Publishing
pub mod Queueing
pub mod Excluding
pub mod Limiting
pub mod Repeating
pub mod SigningIn
pub mod Graphing
pub mod Grouping
