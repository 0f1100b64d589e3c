-- ===== src/Conditions.antt =====
-- util/conditions: the conditions of a Cluster API object.
pub mod Defs
pub mod Getter
pub mod Setter
pub mod Patch
pub mod Merge
pub mod Summary
