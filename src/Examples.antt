-- ===== src/Examples.antt =====
-- Runs of the modelled routines on concrete states, and the theorems at them.
mod Allocator
mod Strings
mod Locks
mod Pipes
mod Processes
mod Blocks
mod FileTable
mod Paths
mod Buffers
mod Spaces
mod Growing
mod Loading
mod Tables
mod Calls
mod Terminal
mod Commands
