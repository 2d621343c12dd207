-- ===== src/LeTables.antt =====
-- bluetooth/audio/utils/aidl_session/BluetoothLeAudioCodecsProvider.cpp: the LE audio capabilities that
-- the settings file offers.
pub mod Settings
pub mod Compose
pub mod Provider
pub mod Sound
pub mod Offered
pub mod Once
