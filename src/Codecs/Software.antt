-- ===== src/Codecs/Software.antt =====
-- `IsSoftwarePcmConfigurationValid` of BluetoothAudioCodecs.cpp, and the checks of `startSession` in
-- bluetooth/audio/hal/HfpSoftwareAudioProvider.cpp with the size of the queue that it makes.
use device_phh_treble_doze.Base.{
  ℕ, ℤ, pos, negsuc, ◌*◌, ◌/◌, ◌%◌, ◌^◌, ◌≡◌, Bool, true, not, ◌&&◌, ◌||◌, List, [], ◌∷◌, Option,
  none, some, arith, int_eqb, if◌then◌else◌, ◌==◌,
}
use device_phh_treble_doze.A2dp.Codec.{ChannelMode, mono, stereo}
use device_phh_treble_doze.Codecs.{channel_mode_eqb, contained_in_vector}

pub record PcmConfiguration : Type 0 where
  pub sample_rate_hz : ℤ
  pub channel_mode : ChannelMode
  pub bits_per_sample : ℤ
  pub data_interval_us : ℤ

abbrev pub software_sample_rates : List ℤ
software_sample_rates =
    pos 8000
    ∷ pos 16000
    ∷ pos 24000
    ∷ pos 32000
    ∷ pos 44100
    ∷ pos 48000
    ∷ pos 88200
    ∷ pos 96000
    ∷ []

unfoldable pub is_software_pcm_configuration_valid : PcmConfiguration → Bool
is_software_pcm_configuration_valid c =
    contained_in_vector int_eqb software_sample_rates c.sample_rate_hz
    && (contained_in_vector int_eqb (pos 16 ∷ pos 24 ∷ pos 32 ∷ []) c.bits_per_sample
        && contained_in_vector channel_mode_eqb (mono ∷ stereo ∷ []) c.channel_mode)

abbrev pub k_buffer_count : ℕ
k_buffer_count = 2

-- A negative number fails the checks, and the size that it gives is only written to the log.
abbrev pub magnitude : ℤ → ℕ
magnitude (pos n) = n
magnitude (negsuc n) = 0

-- The product is a `uint32_t`.
unfoldable pub hfp_data_mq_size : PcmConfiguration → ℕ
hfp_data_mq_size c =
    k_buffer_count
    * (magnitude c.bits_per_sample / 8)
    * (magnitude c.sample_rate_hz / 1000)
    * magnitude c.data_interval_us
    % 2 ^ 32
    / 1000

unfoldable pub is_valid_hfp_config : PcmConfiguration → Bool
is_valid_hfp_config c =
    int_eqb c.bits_per_sample (pos 16)
    && ((int_eqb c.sample_rate_hz (pos 8000)
          || (int_eqb c.sample_rate_hz (pos 16000) || int_eqb c.sample_rate_hz (pos 32000)))
        && (channel_mode_eqb c.channel_mode mono && int_eqb c.data_interval_us (pos 7500)))

-- The size of the queue that is made; `none` is `EX_ILLEGAL_ARGUMENT`.
unfoldable pub hfp_queue : PcmConfiguration → Option ℕ
hfp_queue c =
    if not (is_software_pcm_configuration_valid c)
    then none
    else if not (is_valid_hfp_config c)
    then none
    else some (hfp_data_mq_size c)

hfp_sizes :
    (rate : ℕ)
    → ((rate == 8000) || ((rate == 16000) || (rate == 32000))) ≡ true
    → k_buffer_count * (16 / 8) * (rate / 1000) * 7500 % 2 ^ 32 / 1000 * 1000000
      ≡ k_buffer_count * (2 * (rate * 7500))
hfp_sizes rate h = ground arith

-- The queue that the HFP software provider makes for a configuration holds exactly two frames of
-- 7500 microseconds of its 16 bit mono samples: its size is not rounded.
pub hfp_queue_lem :
    (c : PcmConfiguration) (rate size : ℕ)
    → c.sample_rate_hz ≡ pos rate
    → hfp_queue c ≡ some size
    → size * 1000000 ≡ k_buffer_count * (2 * (rate * 7500))
unfolding hfp_queue hfp_data_mq_size is_valid_hfp_config
hfp_queue_lem c rate size e done = ground (arith, hfp_sizes rate)
