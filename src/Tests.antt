-- ===== src/Tests.antt =====
-- Runs of the modelled code on small inputs, and each theorem with conditions at such an input.
mod Samples
mod Envelopes
mod Leases
mod Mailboxes
mod Services
mod Outboxes
mod Actors
mod Routes
