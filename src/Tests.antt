-- ===== src/Tests.antt =====
-- Concrete systems, and each property at a concrete input.
mod Json
mod Paging
mod Remembering
mod Losing
mod Pipeline
mod Storing
mod Ending
mod Stores
mod Processor
mod Programs
mod Assembling
mod Scheduling
mod Running
mod Threads
mod Metrics
mod Branching
