-- ===== src/A2a.antt =====
-- src/hallpass/a2a.py: agent-to-agent channels. `Store` has the message log, the cursors and the
-- presence, `Bus` the authorized calls on them.
pub mod Store
pub mod Bus
