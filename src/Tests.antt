-- ===== src/Tests.antt =====
-- The tests: what the code does on one database and one disk in memory.
mod Memory
mod Scene
mod Requests
mod Helper
mod Pure
mod Nodes
mod Driver
mod System
mod Journey
mod Life
mod Working
mod Reads
mod Listing
mod LinkTree
mod Links
mod Statistics
