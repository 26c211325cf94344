-- ===== src/Mib.antt =====
-- The MIB layer: firmware/components/mib. `Types` is mib_types.h, mib_object.h, mib_table.h and
-- mib_tree.h; `Registry` and `Resolve` are mib_registry.c.
pub mod Types
pub mod Oid
pub mod Next
pub mod Registry
pub mod Tables
pub mod Resolve
