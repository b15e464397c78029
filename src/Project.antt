-- ===== src/Project.antt =====
-- packages/modules/project/src/domain: the sources that agents work on, and the volumes that are kept
-- of their work.
pub mod Entity
pub mod Volume
mod Examples
