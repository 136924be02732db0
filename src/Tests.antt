-- ===== src/Tests.antt =====
-- Every theorem of the header at a concrete input.
mod Routes
mod Peers
mod Confirms
mod Neighborhood
mod Budget
mod Hops
mod Messages
mod Tables
mod Sends
mod Frames
mod Requests
