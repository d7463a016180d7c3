-- ===== src/Types.antt =====
-- pkg/types: what a manifest asks for and a host grants.
pub mod Dbus
pub mod HostActions
pub mod Override
pub mod Filesystem
