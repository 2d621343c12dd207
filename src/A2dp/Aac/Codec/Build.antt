-- ===== src/A2dp/Aac/Codec/Build.antt =====
-- A2dpOffloadCodecAac.cpp: `BuildConfiguration`.
use device_phh_treble_doze.Base.{
  ℕ, ℤ, pos, negsuc, Bool, true, not, List, [], ◌∷◌, Option, none, some, ltb, ◌==◌, ◌&&◌, length,
  replicate, min, int_eqb, if◌then◌else◌,
}
use device_phh_treble_doze.A2dp.Bits.{get_range, set_range, to_num}
use device_phh_treble_doze.A2dp.Codec.{CodecInfo, CodecParameters}
use device_phh_treble_doze.A2dp.Codec.Building.{
  Building, built, refused, ◌>>=◌, choose, set_chosen, hinted,
}
use device_phh_treble_doze.A2dp.Aac.Format.{
  k_vbr_supported, k_bitrate, k_object_type_mpeg2_aac_lc, k_object_type_mpeg4_aac_lc,
  k_sampling_frequency_44100, k_sampling_frequency_48000, k_sampling_frequency_88200,
  k_sampling_frequency_96000, k_channels_1, k_channels_2, get_sampling_frequency_bit,
  get_channels_bit,
}

-- The bits that each part tries, in its order.
abbrev pub object_types : List ℕ
object_types = k_object_type_mpeg2_aac_lc ∷ k_object_type_mpeg4_aac_lc ∷ []

abbrev pub any_sampling_frequency : List ℕ
any_sampling_frequency =
    k_sampling_frequency_96000 ∷ k_sampling_frequency_88200 ∷ k_sampling_frequency_48000
    ∷ k_sampling_frequency_44100 ∷ []

abbrev pub sampling_frequencies : Option CodecParameters → List ℕ
sampling_frequencies none = any_sampling_frequency
sampling_frequencies (some hint) =
    hinted (get_sampling_frequency_bit hint.sampling_frequency_hz) any_sampling_frequency

abbrev pub channels : Option CodecParameters → List ℕ
channels none = k_channels_2 ∷ k_channels_1 ∷ []
channels (some hint) =
    hinted (get_channels_bit hint.channel_mode) (k_channels_2 ∷ k_channels_1 ∷ [])

-- `!hint || hint->minBitrate == 0`
abbrev pub may_vary : Option CodecParameters → Bool
may_vary none = true
may_vary (some hint) = int_eqb hint.min_bitrate (pos 0)

unfoldable pub set_vbr : List ℕ → List ℕ → Option CodecParameters → List ℕ → List ℕ
set_vbr lcaps rcaps hint config =
    if may_vary hint
    then set_range config k_vbr_supported (
        to_num (
          not (get_range lcaps k_vbr_supported == 0) && not (get_range rcaps k_vbr_supported == 0)))
    else config

-- The maximum of the hint, where it is positive, within the local limit, where there is one.
unfoldable pub limit_bitrate : ℤ → ℕ → ℕ
limit_bitrate (pos most) bitrate =
    if ltb 0 most && not (bitrate == 0)
    then min most bitrate
    else if ltb 0 most
    then most
    else bitrate
limit_bitrate (negsuc _) bitrate = bitrate

unfoldable pub select_bitrate : List ℕ → Option CodecParameters → ℕ
select_bitrate lcaps none = get_range lcaps k_bitrate
select_bitrate lcaps (some hint) = limit_bitrate hint.max_bitrate (get_range lcaps k_bitrate)

unfoldable pub finish : List ℕ → List ℕ → Option CodecParameters → List ℕ → List ℕ
finish lcaps rcaps hint config =
    set_range (set_vbr lcaps rcaps hint config) k_bitrate (select_bitrate lcaps hint)

-- The parts, from a cleared vector.
unfoldable pub build_parts : List ℕ → List ℕ → Option CodecParameters → Building
build_parts lcaps rcaps hint =
    set_chosen (choose lcaps rcaps object_types) (replicate (length lcaps) 0)
    >>= set_chosen (choose lcaps rcaps (sampling_frequencies hint))
    >>= set_chosen (choose lcaps rcaps (channels hint))
    >>= λ c. built (finish lcaps rcaps hint c)

-- `prior` is what the vector behind the pointer held; a remote vector of another size returns false
-- before it is cleared.
unfoldable pub build_configuration : CodecInfo → List ℕ → Option CodecParameters → List ℕ → Building
build_configuration info rcaps hint prior =
    if not (length rcaps == length info.capabilities)
    then refused prior
    else build_parts info.capabilities rcaps hint
