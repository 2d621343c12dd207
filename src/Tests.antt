-- ===== src/Tests.antt =====
-- Examples of the theorems at concrete inputs.
mod Codecs
mod Choice
mod Sessions
mod Providers
mod Tables
mod Setup
mod Streams
mod Inputs
mod LeAudio
mod Devices
mod Images
mod Fingers
mod Middleware
mod LeTables
