-- ===== src/LeAudio.antt =====
-- bluetooth/audio/hal/LeAudioOffloadAudioProvider.cpp: the choice of LE audio offload configurations.
pub mod Types
pub mod Matching
pub mod Ase
pub mod Supports
pub mod Offers
pub mod Chosen
pub mod Qos
pub mod QosFound
pub mod Broadcast
pub mod Software
