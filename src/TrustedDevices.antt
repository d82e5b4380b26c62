-- ===== src/TrustedDevices.antt =====
-- The devices that may sync: src/trusted_device_store.cpp and the class JsonTrustedDeviceStore of
-- src/sync.cpp.
pub mod Files
pub mod Ids
pub mod Store
pub mod Persistence
