-- ===== src/Examples.antt =====
-- Runs of the modelled code on small inputs, and the properties applied to them.
mod Graphs
mod Services
mod Handovers
mod Jobs
mod Merging
mod Requests
mod Users
mod Chainages
mod Accounts
mod Limits
mod Texts
mod Published
