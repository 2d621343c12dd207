-- ===== src/A2dp/Sbc/Codec/Build.antt =====
-- A2dpOffloadCodecSbc.cpp: `BuildConfiguration`.
use device_phh_treble_doze.Base.{
  ℕ, pos, not, List, [], ◌∷◌, Option, none, some, ltb, ◌==◌, ◌||◌, ◌&&◌, length, replicate, min,
  max, int_eqb, int_leb, if◌then◌else◌,
}
use device_phh_treble_doze.A2dp.Bits.{get_range, set_range}
use device_phh_treble_doze.A2dp.Codec.{CodecInfo, CodecParameters}
use device_phh_treble_doze.A2dp.Codec.Building.{
  Building, built, refused, ◌>>=◌, choose, set_chosen, hinted,
}
use device_phh_treble_doze.A2dp.Sbc.Format.{
  k_minimum_bitpool, k_maximum_bitpool, k_sampling_frequency_44100, k_sampling_frequency_48000,
  k_channel_mode_mono, k_channel_mode_dual_channel, k_channel_mode_stereo,
  k_channel_mode_joint_stereo, k_block_length_4, k_block_length_8, k_block_length_12,
  k_block_length_16, k_subbands_8, k_subbands_4, k_allocation_method_snr,
  k_allocation_method_loudness, get_sampling_frequency_bit, get_channel_mode_bit,
}
use device_phh_treble_doze.A2dp.Sbc.Rate.{get_bitpool}

-- The bits that each part tries, in its order.
abbrev pub sampling_frequencies : Option CodecParameters → List ℕ
sampling_frequencies none = k_sampling_frequency_44100 ∷ k_sampling_frequency_48000 ∷ []
sampling_frequencies (some hint) =
    hinted (get_sampling_frequency_bit hint.sampling_frequency_hz)
      (k_sampling_frequency_44100 ∷ k_sampling_frequency_48000 ∷ [])

abbrev pub any_channel_mode : List ℕ
any_channel_mode =
    k_channel_mode_joint_stereo ∷ k_channel_mode_stereo ∷ k_channel_mode_dual_channel
    ∷ k_channel_mode_mono ∷ []

abbrev pub channel_modes : Option CodecParameters → List ℕ
channel_modes none = any_channel_mode
channel_modes (some hint) = hinted (get_channel_mode_bit hint.channel_mode) any_channel_mode

abbrev pub block_lengths : List ℕ
block_lengths = k_block_length_16 ∷ k_block_length_12 ∷ k_block_length_8 ∷ k_block_length_4 ∷ []

abbrev pub subbands : List ℕ
subbands = k_subbands_8 ∷ k_subbands_4 ∷ []

abbrev pub allocation_methods : List ℕ
allocation_methods = k_allocation_method_loudness ∷ k_allocation_method_snr ∷ []

-- The remote bitpools, or the whole range where they make none.
unfoldable pub remote_bitpool : ℕ → ℕ → ℕ × ℕ
remote_bitpool lo hi =
    if ltb lo 2 || ltb 250 lo || ltb hi 2 || ltb 250 hi || ltb hi lo then (2, 250) else (lo, hi)

-- The bounds that the hint sets; `config` holds the bits chosen so far.
unfoldable pub hinted_bitpool : Option CodecParameters → List ℕ → ℕ × ℕ → ℕ × ℕ
hinted_bitpool none config (lo, hi) = (lo, hi)
hinted_bitpool (some hint) config (lo, hi) = (
  max lo (get_bitpool config hint.min_bitrate),
  if not (int_eqb hint.max_bitrate (pos 0)) && int_leb hint.min_bitrate hint.max_bitrate
      then min hi (get_bitpool config hint.max_bitrate)
      else hi,
)

unfoldable pub select_bitpool : List ℕ → List ℕ → Option CodecParameters → List ℕ → ℕ × ℕ
unfolding remote_bitpool hinted_bitpool
select_bitpool lcaps rcaps hint config =
    let (lo, hi) =
      remote_bitpool (get_range rcaps k_minimum_bitpool) (get_range rcaps k_maximum_bitpool) in
    hinted_bitpool hint config
      (max lo (get_range lcaps k_minimum_bitpool), max hi (get_range lcaps k_maximum_bitpool))

unfoldable pub set_bitpool : ℕ × ℕ → List ℕ → List ℕ
set_bitpool (lo, hi) config = set_range (set_range config k_minimum_bitpool lo) k_maximum_bitpool hi

-- The parts, from a cleared vector.
unfoldable pub build_parts : List ℕ → List ℕ → Option CodecParameters → Building
build_parts lcaps rcaps hint =
    set_chosen (choose lcaps rcaps (sampling_frequencies hint)) (replicate (length lcaps) 0)
    >>= set_chosen (choose lcaps rcaps (channel_modes hint))
    >>= set_chosen (choose lcaps rcaps block_lengths)
    >>= set_chosen (choose lcaps rcaps subbands)
    >>= set_chosen (choose lcaps rcaps allocation_methods)
    >>= λ c. built (set_bitpool (select_bitpool lcaps rcaps hint c) c)

-- `prior` is what the vector behind the pointer held; a remote vector of another size returns false
-- before it is cleared.
unfoldable pub build_configuration : CodecInfo → List ℕ → Option CodecParameters → List ℕ → Building
build_configuration info rcaps hint prior =
    if not (length rcaps == length info.capabilities)
    then refused prior
    else build_parts info.capabilities rcaps hint
