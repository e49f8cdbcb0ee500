-- ===== src/Tests.antt =====
-- Runs of the definitions on small inputs, and the theorems applied to concrete cases.
mod Frames
mod Pages
mod Heaps
mod Paths
mod Files
mod Devices
mod Stores
mod Clocks
mod Traces
mod Trees
mod Starts
mod Processors
mod Regions
mod Areas
