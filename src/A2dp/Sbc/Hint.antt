-- ===== src/A2dp/Sbc/Hint.antt =====
-- The bounds that a hint sets on the bitpools (`BuildConfiguration` of A2dpOffloadCodecSbc.cpp).
use device_phh_treble_doze.Base.{
  ℕ, pos, ◌≤◌, ◌<◌, ◌≡◌, true, false, List, some, arith, int_eqb, int_leb,
}
use device_phh_treble_doze.A2dp.Bits.{get_range}
use device_phh_treble_doze.A2dp.Codec.{CodecParameters}
use device_phh_treble_doze.A2dp.Sbc.Format.{k_minimum_bitpool, k_maximum_bitpool}
use device_phh_treble_doze.A2dp.Sbc.Rate.{get_bitpool}
use device_phh_treble_doze.A2dp.Sbc.Codec.{local_capabilities}
use device_phh_treble_doze.A2dp.Sbc.Codec.Build.{select_bitpool, remote_bitpool, hinted_bitpool}
use device_phh_treble_doze.A2dp.Sbc.RoundTrip.{local_bitpools}

-- When the remote bitpools are valid and the hint's `maxBitrate` is not 0 and not below its
-- `minBitrate`, and its bitpool lies below the remote minimum, the selected maximum bitpool lies
-- below the selected minimum.
pub select_bitpool_lem :
    (rcaps config : List ℕ) (h : CodecParameters)
    → 2 ≤ get_range rcaps k_minimum_bitpool
    → get_range rcaps k_minimum_bitpool ≤ get_range rcaps k_maximum_bitpool
    → get_range rcaps k_maximum_bitpool ≤ 250
    → int_eqb h.max_bitrate (pos 0) ≡ false
    → int_leb h.min_bitrate h.max_bitrate ≡ true
    → get_bitpool config h.max_bitrate < get_range rcaps k_minimum_bitpool
    → let (lo, hi) = select_bitpool local_capabilities rcaps (some h) config in hi < lo
unfolding select_bitpool hinted_bitpool remote_bitpool
select_bitpool_lem rcaps config h least range most given ordered below =
    ground (arith, local_bitpools.0, local_bitpools.1)
