-- ===== src/Middleware/Kept.antt =====
-- What the conversions of HidlToAidlMiddleware.cpp keep, and where they end the process.
use device_phh_treble_doze.Base.{
  ℕ, ℤ, pos, negsuc, ◌<◌, ◌^◌, ◌≡◌, ◌↔◌, refl, arith, Bool, true, false, not, List, [], ◌∷◌, Option,
  none, some, int_eqb,
}
use device_phh_treble_doze.A2dp.Codec.{ChannelMode, unknown, mono, stereo, dualmono}
use device_phh_treble_doze.Codecs.{contained_in_vector, channel_mode_eqb}
use device_phh_treble_doze.Codecs.Software.{
  software_sample_rates, PcmConfiguration, is_software_pcm_configuration_valid,
}
use device_phh_treble_doze.Session.Types.{
  ConfigTag, pcm_config, a2dp_config, le_audio_config, le_audio_broadcast_config, hfp_config, a2dp,
  AudioConfiguration,
}
use device_phh_treble_doze.Hw.Config.{to_u32}
use device_phh_treble_doze.Middleware.Convert.{
  SampleRate, rate_unknown, rate_44100, rate_48000, rate_88200, rate_96000, rate_176400,
  rate_192000, rate_16000, rate_24000, rate_8000, rate_32000, to_hidl_sample_rate, BitsPerSample,
  bits_unknown, bits_16, bits_24, bits_32, to_hidl_bits_per_sample, HidlChannelMode,
  channel_unknown, channel_mono, channel_stereo, to_hidl_channel_mode, to_hidl_pcm_config_2_0,
  PcmParameters21, to_hidl_pcm_config_2_1,
}
use device_phh_treble_doze.Middleware.Configs.{
  Meanings, to_hidl_leaudio_config_2_1, to_hidl_leaudio_broadcast_config_2_1,
  to_hidl_audio_config_2_1, get_lc3, Lc3CodecConfig, le_audio_or, LeAudioCodec, lc3_config,
  vendor_config, is_lc3,
}

-- The reading of the HIDL values.
abbrev pub hz_of : SampleRate → ℤ
hz_of rate_unknown = pos 0
hz_of rate_44100 = pos 44100
hz_of rate_48000 = pos 48000
hz_of rate_88200 = pos 88200
hz_of rate_96000 = pos 96000
hz_of rate_176400 = pos 176400
hz_of rate_192000 = pos 192000
hz_of rate_16000 = pos 16000
hz_of rate_24000 = pos 24000
hz_of rate_8000 = pos 8000
hz_of rate_32000 = pos 32000

abbrev pub bits_of : BitsPerSample → ℤ
bits_of bits_unknown = pos 0
bits_of bits_16 = pos 16
bits_of bits_24 = pos 24
bits_of bits_32 = pos 32

abbrev pub mode_of : HidlChannelMode → ChannelMode
mode_of channel_unknown = unknown
mode_of channel_mono = mono
mode_of channel_stereo = stereo

abbrev pub of_hidl : PcmParameters21 → PcmConfiguration
of_hidl p = record {
  sample_rate_hz = hz_of p.pcm.sample_rate;
  channel_mode = mode_of p.pcm.channel_mode;
  bits_per_sample = bits_of p.pcm.bits_per_sample;
  data_interval_us = pos p.data_interval_us;
}

hz_lem :
    (hz : ℤ)
    → contained_in_vector int_eqb software_sample_rates hz ≡ true
    → hz_of (to_hidl_sample_rate hz) ≡ hz
unfolding to_hidl_sample_rate contained_in_vector
hz_lem (pos n) h = ground arith
hz_lem (negsuc n) h = ground arith

bits_lem :
    (bits : ℤ)
    → contained_in_vector int_eqb (pos 16 ∷ pos 24 ∷ pos 32 ∷ []) bits ≡ true
    → bits_of (to_hidl_bits_per_sample bits) ≡ bits
unfolding to_hidl_bits_per_sample contained_in_vector
bits_lem (pos n) h = ground arith
bits_lem (negsuc n) h = ground arith

mode_lem :
    (m : ChannelMode)
    → contained_in_vector channel_mode_eqb (mono ∷ stereo ∷ []) m ≡ true
    → mode_of (to_hidl_channel_mode m) ≡ m
unfolding to_hidl_channel_mode contained_in_vector
mode_lem unknown h = ground arith
mode_lem mono h = refl
mode_lem stereo h = refl
mode_lem dualmono h = ground arith

interval_lem : (x : ℤ) (n : ℕ) → x ≡ pos n → n < 2 ^ 32 → pos (to_u32 x) ≡ x
interval_lem (pos m) n h bound = ground arith
interval_lem (negsuc m) n h bound = ground arith

-- A valid software PCM configuration whose interval is a number of 32 bits is kept by the
-- conversion to the 2.1 interface: the values read back are the configuration.
pub pcm_kept :
    (c : PcmConfiguration) (n : ℕ)
    → is_software_pcm_configuration_valid c ≡ true
    → c.data_interval_us ≡ pos n
    → n < 2 ^ 32
    → of_hidl (to_hidl_pcm_config_2_1 c) ≡ c
unfolding to_hidl_pcm_config_2_1 to_hidl_pcm_config_2_0 is_software_pcm_configuration_valid
pcm_kept c n valid interval bound =
    let rate = hz_lem c.sample_rate_hz (ground arith) in
    let bits = bits_lem c.bits_per_sample (ground arith) in
    let mode = mode_lem c.channel_mode (ground arith) in
    let us = interval_lem c.data_interval_us n interval bound in cc

le_fatal_of :
    (codec : LeAudioCodec) (allocations : List ℕ)
    → to_hidl_leaudio_config_2_1 (record { codec = codec; allocations = allocations }) ≡ none
unfolding to_hidl_leaudio_config_2_1 get_lc3
le_fatal_of (lc3_config x) allocations = refl
le_fatal_of (vendor_config n) allocations = refl

abbrev pub starts_with_vendor : List (LeAudioCodec × ℕ) → Bool
starts_with_vendor [] = false
starts_with_vendor ((codec, a) ∷ streams) = not (is_lc3 codec)

-- The configurations that cannot be converted.
abbrev pub is_fatal : Meanings → AudioConfiguration → Bool
is_fatal k config = elim config.tag [
  | pcm_config ↦ false
  | a2dp_config ↦ false
  | a2dp ↦ false
  | le_audio_config ↦ true
  | le_audio_broadcast_config ↦ starts_with_vendor (k.broadcast_of config.content)
  | hfp_config ↦ true
]

broadcast_fatal :
    (streams : List (LeAudioCodec × ℕ))
    → (starts_with_vendor streams ≡ true) ↔ (to_hidl_leaudio_broadcast_config_2_1 streams ≡ none)
unfolding to_hidl_leaudio_broadcast_config_2_1 get_lc3
broadcast_fatal [] = ground arith
broadcast_fatal ((lc3_config x, a) ∷ streams) = ground arith
broadcast_fatal ((vendor_config n, a) ∷ streams) = ground arith

le_audio_or-none : (c : Option Lc3CodecConfig) → (c ≡ none) ↔ (le_audio_or c ≡ none)
le_audio_or-none none = ground arith
le_audio_or-none (some c) = ground arith

fatal_of :
    (k : Meanings) (tag : ConfigTag) (content : ℕ)
    → (is_fatal k (record { tag = tag; content = content }) ≡ true)
      ↔ (to_hidl_audio_config_2_1 k (record { tag = tag; content = content }) ≡ none)
unfolding to_hidl_audio_config_2_1
fatal_of k pcm_config content = ground arith
fatal_of k a2dp_config content = ground arith
fatal_of k a2dp content = ground arith
fatal_of k le_audio_config content =
    let fatal = le_fatal_of (k.le_of content).codec (k.le_of content).allocations in
    let or = le_audio_or-none (to_hidl_leaudio_config_2_1 (k.le_of content)) in
    ((λ h. or.0 fatal), (λ h. refl))
fatal_of k le_audio_broadcast_config content =
    let fatal = broadcast_fatal (k.broadcast_of content) in
    let or = le_audio_or-none (to_hidl_leaudio_broadcast_config_2_1 (k.broadcast_of content)) in
    ((λ h. or.0 (fatal.0 h)), (λ h. fatal.1 (or.1 h)))
fatal_of k hfp_config content = ground arith

-- The conversion of a configuration ends the process exactly for every LE audio unicast
-- configuration, for every HFP configuration, and for a broadcast whose first stream is of a vendor
-- codec.
pub fatal_iff :
    (k : Meanings) (config : AudioConfiguration)
    → (is_fatal k config ≡ true) ↔ (to_hidl_audio_config_2_1 k config ≡ none)
fatal_iff k config = fatal_of k config.tag config.content
