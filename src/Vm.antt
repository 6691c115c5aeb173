-- ===== src/Vm.antt =====
-- src/nodus/vm/vm.py and types.py: the machine's stacks, its exceptions with their `finally` blocks,
-- and the instructions that move between them.
pub mod State
pub mod Operators
pub mod Exceptions
pub mod Frames
pub mod Nesting
pub mod Catch
pub mod Cancel
pub mod Finally
pub mod Cleanup
pub mod Twice
pub mod Returns
pub mod Tests
pub mod Rounds
pub mod Capture
pub mod CaptureTests
pub mod Cells
pub mod Sharing
pub mod Step
pub mod Resume
pub mod ResumeTests
pub mod Switch
pub mod Signals
pub mod Runs
pub mod Lifecycle
pub mod Delivery
