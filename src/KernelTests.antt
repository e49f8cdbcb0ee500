-- ===== src/KernelTests.antt =====
-- The tests that the kernel runs at its start in a test build, as runs of the model.
mod Paths
mod Addresses
mod Files
