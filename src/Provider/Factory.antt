-- ===== src/Provider/Factory.antt =====
-- bluetooth/audio/hal/BluetoothAudioProviderFactory.cpp: `openProvider` with the constructors and the
-- `isValid` of the classes, `getProviderCapabilities` and `getProviderInfo`. The LE audio tables of
-- the codecs are arguments.
use Prim.Native.String.{String}
use device_phh_treble_doze.Base.{
  ℕ, ℤ, pos, Bool, true, false, not, ◌&&◌, ◌||◌, List, [], ◌∷◌, map, Option, none, some, ◌==◌,
  if◌then◌else◌,
}
use device_phh_treble_doze.A2dp.Codec.{CodecInfo, ChannelMode, mono, stereo}
use device_phh_treble_doze.A2dp.Factory.{info, ranked_codecs}
use device_phh_treble_doze.Codecs.{CodecCapabilities}
use device_phh_treble_doze.Codecs.Software.{software_sample_rates}
use device_phh_treble_doze.Codecs.Tables.{get_a2dp_offload_codec_capabilities}
use device_phh_treble_doze.Session.Types.{
  SessionType, unknown, a2dp_software_encoding, a2dp_hardware_offload_encoding,
  hearing_aid_software_encoding, le_audio_software_encoding, le_audio_software_decoding,
  le_audio_hardware_offload_encoding, le_audio_hardware_offload_decoding,
  le_audio_broadcast_software_encoding, le_audio_broadcast_hardware_offload_encoding,
  a2dp_software_decoding, a2dp_hardware_offload_decoding, hfp_software_encoding,
  hfp_software_decoding, hfp_hardware_offload, is_offload_a2dp, DataMq,
}
use device_phh_treble_doze.Session.State.{mq_valid}
use device_phh_treble_doze.Provider.{
  ProviderClass, type_of, has_queue, a2dp_offload_encoding, a2dp_offload_decoding,
  a2dp_software_encoder, a2dp_software_decoder, hearing_aid, hfp_offload, le_audio_offload_output,
  le_audio_offload_input, le_audio_offload_broadcast,
}

-- The classes that are opened; those whose queue is made by `startSession` have names of their own.
pub data OpenedClass : Type 0 where
  known : ProviderClass → OpenedClass
  le_audio_software_output le_audio_software_input le_audio_software_broadcast : OpenedClass
  hfp_software_output hfp_software_input : OpenedClass

-- The switch of `openProvider`.
unfoldable pub make_provider : SessionType → Option OpenedClass
make_provider a2dp_software_encoding = some (known a2dp_software_encoder)
make_provider a2dp_hardware_offload_encoding = some (known a2dp_offload_encoding)
make_provider hearing_aid_software_encoding = some (known hearing_aid)
make_provider le_audio_software_encoding = some le_audio_software_output
make_provider le_audio_hardware_offload_encoding = some (known le_audio_offload_output)
make_provider le_audio_software_decoding = some le_audio_software_input
make_provider le_audio_hardware_offload_decoding = some (known le_audio_offload_input)
make_provider le_audio_broadcast_software_encoding = some le_audio_software_broadcast
make_provider le_audio_broadcast_hardware_offload_encoding = some (known le_audio_offload_broadcast)
make_provider a2dp_software_decoding = some (known a2dp_software_decoder)
make_provider a2dp_hardware_offload_decoding = some (known a2dp_offload_decoding)
make_provider hfp_software_encoding = some hfp_software_output
make_provider hfp_software_decoding = some hfp_software_input
make_provider hfp_hardware_offload = some (known hfp_offload)
make_provider unknown = none

-- The queue that a constructor keeps of the one that it has made.
unfoldable pub queue_of : ProviderClass → Option DataMq → Option DataMq
queue_of class mq = if has_queue class && mq_valid mq then mq else none

-- `session_type_` after the constructor. That of a hearing aid is set only with a valid queue.
unfoldable pub constructed_type : OpenedClass → Option DataMq → SessionType
constructed_type (known hearing_aid) mq =
    if mq_valid mq then hearing_aid_software_encoding else unknown
constructed_type (known class) mq = type_of class
constructed_type le_audio_software_output mq = le_audio_software_encoding
constructed_type le_audio_software_input mq = le_audio_software_decoding
constructed_type le_audio_software_broadcast mq = le_audio_broadcast_software_encoding
constructed_type hfp_software_output mq = hfp_software_encoding
constructed_type hfp_software_input mq = hfp_software_decoding

-- The position of an enumerator, by which two of them are told apart.
abbrev pub index_of : SessionType → ℕ
index_of unknown = 0
index_of a2dp_software_encoding = 1
index_of a2dp_hardware_offload_encoding = 2
index_of hearing_aid_software_encoding = 3
index_of le_audio_software_encoding = 4
index_of le_audio_software_decoding = 5
index_of le_audio_hardware_offload_encoding = 6
index_of le_audio_hardware_offload_decoding = 7
index_of le_audio_broadcast_software_encoding = 8
index_of le_audio_broadcast_hardware_offload_encoding = 9
index_of a2dp_software_decoding = 10
index_of a2dp_hardware_offload_decoding = 11
index_of hfp_software_encoding = 12
index_of hfp_software_decoding = 13
index_of hfp_hardware_offload = 14

abbrev pub needs_queue : OpenedClass → Bool
needs_queue (known class) = has_queue class
needs_queue _ = false

-- `isValid` of the class.
unfoldable pub is_valid : OpenedClass → Option DataMq → SessionType → Bool
is_valid class mq t =
    index_of t == index_of (constructed_type class mq) && (not (needs_queue class) || mq_valid mq)

-- `openProvider`, when the queue that a constructor makes is `mq`. `none` is EX_ILLEGAL_ARGUMENT.
unfoldable pub open_provider : Option DataMq → SessionType → Option OpenedClass
open_provider mq t = elim (make_provider t) [
  | none ↦ none
  | some class ↦ if is_valid class mq t then some class else none
]

-- `kDefaultSoftwarePcmCapabilities`, and what `GetSoftwarePcmCapabilities` returns.
pub record PcmCapabilities : Type 0 where
  pub sample_rate_hz : List ℤ
  pub channel_mode : List ChannelMode
  pub bits_per_sample : List ℤ
  pub data_interval_us : List ℤ

unfoldable pub get_software_pcm_capabilities : List PcmCapabilities
get_software_pcm_capabilities =
    record {
      sample_rate_hz = software_sample_rates;
      channel_mode = mono ∷ stereo ∷ [];
      bits_per_sample = pos 16 ∷ pos 24 ∷ pos 32 ∷ [];
      data_interval_us = [];
    }
    ∷ []

-- The union `AudioCapabilities`; the settings of the LE audio tables are told apart by numbers.
pub data AudioCapabilities : Type 0 where
  pcm_capabilities : PcmCapabilities → AudioCapabilities
  a2dp_capabilities : CodecCapabilities → AudioCapabilities
  le_audio_capabilities : ℕ → AudioCapabilities

abbrev pub is_le_audio_offload : SessionType → Bool
is_le_audio_offload le_audio_hardware_offload_encoding = true
is_le_audio_offload le_audio_hardware_offload_decoding = true
is_le_audio_offload le_audio_broadcast_hardware_offload_encoding = true
is_le_audio_offload _ = false

-- `getProviderCapabilities`, which always answers ok. `before` is what the result holds when it is
-- called, and `le_audio` is `GetLeAudioOffloadCodecCapabilities`.
unfoldable pub get_provider_capabilities :
    (SessionType → List ℕ) → List AudioCapabilities → SessionType → List AudioCapabilities
get_provider_capabilities le_audio before t =
    if is_offload_a2dp t
    then map a2dp_capabilities (get_a2dp_offload_codec_capabilities t)
    else if is_le_audio_offload t
    then elim (le_audio t) [ [] ↦ before | c ∷ cs ↦ map le_audio_capabilities (c ∷ cs) ]
    else if index_of t == 0
    then before
    else map pcm_capabilities get_software_pcm_capabilities

-- `kEnableA2dpCodecExtensibility` of BluetoothAudioProvider.h.
abbrev pub k_enable_a2dp_codec_extensibility : Bool
k_enable_a2dp_codec_extensibility = false

pub data ProviderInfo : Type 0 where
  a2dp_info : String → List CodecInfo → ProviderInfo
  le_audio_info : String → List ℕ → ProviderInfo

-- The answer of `getProviderInfo`.
pub data InfoAnswer : Type 0 where
  unknown_transaction : InfoAnswer
  answered : Option ProviderInfo → InfoAnswer

-- `le_audio` is `GetLeAudioOffloadCodecInfo`, whose codecs are told apart by numbers.
unfoldable pub get_provider_info : (SessionType → List ℕ) → SessionType → InfoAnswer
get_provider_info le_audio t =
    if is_offload_a2dp t
    then if k_enable_a2dp_codec_extensibility
      then answered (some (a2dp_info "Offload" (map info ranked_codecs)))
      else unknown_transaction
    else if is_le_audio_offload t
    then elim (le_audio t) [
      | [] ↦ answered none
      | c ∷ cs ↦
          answered (some (le_audio_info "LE_AUDIO_OFFLOAD_HARDWARE_OFFLOAD_PROVIDER" (c ∷ cs)))
    ]
    else answered none
