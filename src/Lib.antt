-- ===== src/Lib.antt =====
-- The native services of this repository: the Bluetooth audio HAL, with the choice of an A2DP offload
-- configuration, the sessions between the Bluetooth stack and the audio HAL, and the streams of the
-- legacy audio HAL; the audio HAL; the fingerprint HALs; and the reader of sparse images.
--
-- The parts. A provider (bluetooth/audio/hal/*Provider.cpp) is what the Bluetooth stack calls. It
-- checks a configuration, for A2DP offload with the codecs' parsers, and starts or ends the session
-- of its type (bluetooth/audio/utils/aidl_session/BluetoothAudioSession.cpp). The audio HAL registers
-- observers on a session, reads the configuration, and moves PCM data through the session's queue.
-- The codec factory (bluetooth/audio/hal/A2dpOffloadCodecFactory.cpp) chooses a configuration from
-- what the remote side offers; each codec builds and parses the bytes of its configuration through
-- the bit fields of bluetooth/audio/hal/A2dpBits.h. A stream of the legacy HAL
-- (bluetooth/audio/hw/stream_apis.cc) drives a port (device_port_proxy.cc), which registers callbacks
-- on a session, asks the session to start or suspend, waits for the callbacks, and moves data through
-- the session. Clients of the older interface reach the session through the middleware
-- (HidlToAidlMiddleware.cpp). The audio HAL (audio/hal) wraps a legacy device, the fingerprint HALs
-- (hal/anakin-fp, hal/oplus-fp, hal/oppo-fp) a vendor's library or service, and
-- cmds/simg2img_simple.cpp expands a sparse image from its input to its output.
--
-- The files.
--   Base: helpers on lists, Boolean tests, integers and words.
--   A2dp/Bits: A2dpBits.h (get, set, find_active_bit); a vector is the list of its bytes.
--   A2dp/Codec: A2dpOffloadCodec.h; Parsing and Building are the ways in which ParseConfiguration and
--     BuildConfiguration return, a chain of checks with a status each, and a chain of choices.
--   A2dp/Sbc: A2dpOffloadCodecSbc.cpp. Format has the layout and the conversions, Rate the bit rates,
--     Codec the constructor, Codec/Parse and Codec/Build the two methods.
--   A2dp/Aac: A2dpOffloadCodecAac.cpp, in the same shape.
--   A2dp/Factory: A2dpOffloadCodecFactory.cpp (GetCodec, GetConfiguration).
--   Session/Types, Session/State: the fields of BluetoothAudioSession and its methods, each a function
--     from the session to the new session, the callbacks it makes and its result. A method holds the
--     session's lock, so threads interleave between methods only.
--   Session/Cookies: the cookies of observers, RegisterStatusCback and UnregisterStatusCback.
--   Session/Pcm: OutWritePcmData and InReadPcmData, which take the lock anew in each round; what a
--     round meets is an argument, any function of the round's number.
--   Provider: startSession, endSession, streamStarted, streamSuspended, updateAudioConfiguration and
--     setLowLatencyModeAllowed, the death of the stack's process, and the checks of the classes
--     for A2DP, hearing aids, HFP offload and LE audio offload. Provider/Factory has openProvider,
--     getProviderCapabilities and getProviderInfo of BluetoothAudioProviderFactory.cpp.
--   Codecs: BluetoothAudioCodecs.cpp under bluetooth/audio/utils/aidl_session. Tables has the offered
--     capabilities of the A2DP offload codecs and the tests of validity, Software the test of software
--     PCM and the queue of bluetooth/audio/hal/HfpSoftwareAudioProvider.cpp.
--   Hw/Types, Hw/Port, Hw/Config: device_port_proxy.cc. A call on the port gets an environment: the
--     session, the answer of the stack, the callbacks that come while the stack is asked, and those
--     of each wake-up of a wait. It returns what has not come by its end.
--   Hw/Out, Hw/Position, Hw/Params, Hw/In, Hw/Device, Hw/Replies: stream_apis.cc and utils.cc. The calls
--     of the output streams, their positions, out_set_parameters with ParseAudioParams, the calls of
--     the input streams, the opening of both, and out_get_parameters and in_get_capture_position.
--   Hw/Life: the specification of a stream, five phases with the inputs that move them; Hw/Refine,
--     Hw/Waiting, Hw/Streams, Hw/Switches and Hw/Runs relate the port and the calls of a stream to it.
--   Hw/Calls, Hw/Opening, Hw/Writes, Hw/Waits, Hw/Bounds: single calls, opening and closing, writes,
--     the calls that wait, and the positions.
--   LeAudio: bluetooth/audio/hal/LeAudioOffloadAudioProvider.cpp. Types has the data of the interface,
--     Matching the tests on one configuration, Ase and Qos the choice of ASE configurations and of
--     their QoS, Broadcast the broadcast settings; Offers, Chosen and QosFound say what is chosen.
--     Software has the queue of LeAudioSoftwareAudioProvider.cpp.
--   LeTables: BluetoothLeAudioCodecsProvider.cpp under bluetooth/audio/utils/aidl_session. Settings is
--     the parsed file and its tests, Compose the capabilities, Provider the static state.
--   Simg: cmds/simg2img_simple.cpp. Copy has nsendfile, Main the headers and the chunks, Format the
--     files that main accepts, with the fill chunks that it refuses.
--   AudioHal: audio/hal. Device opens and closes streams, Out and In are the life of a stream, System a
--     device with its streams; Writer and Reader are the threads of the streams with their queues.
--   Fingerprint: Goodix has the finger, the queue of commands and the threads of
--     hal/anakin-fp/BiometricsFingerprint.cpp, a step being one access to an atomic variable, or what
--     happens under the mutex to what only its holder touches; Settled, Coherent and Runs are what its
--     runs keep, Dimmed what they come to; Filters its translations and notify; Oplus is
--     hal/oplus-fp/BiometricsFingerprint.cpp.
--   Middleware: HidlToAidlMiddleware.cpp under bluetooth/audio/utils/aidl_session. Convert and
--     Configs have the conversions, Callbacks the table of callbacks; a call is one step.
--   Tests: each theorem at a concrete input.
--
-- Bounds and fuel. The fields of the codecs have at most 23 bits, and a bit rate is below 2^31, so
-- the `int` computations do not overflow and are written with natural numbers. A read past the end
-- of a vector, which the codecs do not make, gives 0. The PCM loops get one round for each byte
-- and each millisecond of the time limit, and one more. The loop over cookies gets its 16 cookies.
-- The loop of in_state_transition_timeout gets 65536 rounds, more than its 16-bit timeout can
-- count. nsendfile gets as many rounds as bytes, since a round moves a byte or leaves. A wait of
-- the port for 4.5 s is a finite list of wake-ups. The 64-bit and 32-bit counters of the streams
-- wrap around in the definitions. The 64-bit count of presses and lifts of a finger is a natural
-- number, since no device lives to see its end.
--
-- Parameters. Ports, queues and the contents of configurations are opaque numbers; what a port or
-- a queue answers is an argument, and so are the numeric values of session types. What an opaque
-- content answers to the validity tests of Codecs is a parameter of the providers. For the
-- streams, what a content means as a PCM configuration, the size of a frame, the mixing into mono,
-- the splitting of a text, the order of a hash map and the names of system/audio.h are parameters.
-- For LE audio, the settings of the codec tables, the bits of the masks and the default values of
-- enumerations are arguments. The system calls of cmds, the vendor libraries behind audio/hal and
-- hal, and the numbers of hardware/fingerprint.h are parameters too.
--
-- Not modelled: logging; the updates of metadata from the legacy C structures; the LE audio ASE
-- and QoS tables, GetLeAudioCodecInfo, and the HIDL sessions; the port over HIDL, and two calls on
-- one stream that overlap while out_write has released its lock; parameters, patches, effects and
-- metadata of audio/hal; the patch that hal/anakin-fp makes in the memory of its vendor library;
-- whether its display follows a request to be bright; the other command line tools, apps and
-- overlays.
pub mod Base
pub mod A2dp
pub mod Session
pub mod Provider
pub mod Codecs
pub mod Hw
pub mod LeAudio
pub mod Simg
pub mod AudioHal
pub mod Fingerprint
pub mod Middleware
pub mod LeTables
pub mod Tests
