-- ===== src/Examples.antt =====
-- Small runs of the program, and the theorems at concrete inputs.
mod Data
mod Muflone
mod Allocation
mod Stock
mod Runner
mod Orders
mod Requests
mod Http
mod Start
mod Projected
mod Wired
mod Stored
mod Projections
mod Beers
mod Server
mod Relay
mod Published
