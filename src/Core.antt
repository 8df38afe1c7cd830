-- ===== src/Core.antt =====
-- src/hallpass/core.py: token in, gated tool call out. `Types` has the state, `Registry` the
-- connectors, `Requests` the calls of a transport; the proofs are below these.
pub mod Types
pub mod Registry
pub mod Requests
