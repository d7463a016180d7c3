-- ===== src/DesktopBus.antt =====
-- pkg/desktopbus/wire.go: how the proxy of the session bus cuts up what its two sides send.
pub mod Auth
pub mod Layout
