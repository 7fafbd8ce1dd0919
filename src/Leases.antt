-- ===== src/Leases.antt =====
-- src/wcd/leases.py: the exclusive lease of a desktop, and the assertion of its interactive context.
-- `Registry` is LeaseRegistry, `Context` is assert_context.
pub mod Registry
pub mod Context
mod Tests
