-- ===== src/Tests.antt =====
-- Runs of the model on concrete memory, and the theorems applied to it.
mod Bins
mod Heap
mod Sizes
mod Pools
mod Queues
mod Validation
mod Console
mod Threads
mod General
mod TreeSearch
