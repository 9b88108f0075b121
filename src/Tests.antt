-- ===== src/Tests.antt =====
-- Test runs, and each theorem that has hypotheses at a concrete input.
mod Cache
mod Envelopes
mod Routing
mod Ids
mod Http
mod Machines
mod Links
mod Folding
mod Mailbox
mod Intruders
