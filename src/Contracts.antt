-- ===== src/Contracts.antt =====
-- src/nodus/runtime/schema_contract.py: the contracts for values that cross a boundary of the
-- runtime. A Nodus value is the Python object that stands for it; of a number only whether it is zero
-- is kept, and a dict has text keys. `none` is a Python exception.
pub mod Values
pub mod Normalize
pub mod Validate
pub mod Simple
pub mod Tests
