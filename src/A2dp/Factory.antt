-- ===== src/A2dp/Factory.antt =====
-- bluetooth/audio/hal/A2dpOffloadCodecFactory.cpp.
pub mod Laws
use device_phh_treble_doze.Base.{
  ℕ, Bool, true, false, not, List, [], ◌∷◌, Option, none, some, if◌then◌else◌,
}
use device_phh_treble_doze.A2dp.Codec.{
  CodecId, CodecInfo, CodecParameters, A2dpStatus, ok, codec_id_eqb,
}
use device_phh_treble_doze.A2dp.Codec.Parsing.{Parsed, parsed, fails, map_parsed}
use device_phh_treble_doze.A2dp.Codec.Building.{Building, built, refused}
use device_phh_treble_doze.A2dp.Aac.Codec as Aac
use device_phh_treble_doze.A2dp.Sbc.Codec as Sbc
use device_phh_treble_doze.A2dp.Aac.Codec.Parse as AacParse
use device_phh_treble_doze.A2dp.Sbc.Codec.Parse as SbcParse
use device_phh_treble_doze.A2dp.Aac.Codec.Build as AacBuild
use device_phh_treble_doze.A2dp.Sbc.Codec.Build as SbcBuild

-- The two codec objects that the constructor makes; a pointer to one is its name.
pub data OffloadCodec : Type 0 where
  aac_codec sbc_codec : OffloadCodec

-- The virtual methods of `A2dpOffloadCodec`.
unfoldable pub info : OffloadCodec → CodecInfo
info aac_codec = Aac.codec_info
info sbc_codec = Sbc.codec_info

unfoldable pub parse : OffloadCodec → List ℕ → Parsed CodecParameters
parse aac_codec config =
    map_parsed (λ p. p.codec) (AacParse.parse_configuration Aac.codec_info config)
parse sbc_codec config =
    map_parsed (λ p. p.codec) (SbcParse.parse_configuration Sbc.codec_info config)

unfoldable pub build : OffloadCodec → List ℕ → Option CodecParameters → List ℕ → Building
build aac_codec = AacBuild.build_configuration Aac.codec_info
build sbc_codec = SbcBuild.build_configuration Sbc.codec_info

abbrev pub ranked_codecs : List OffloadCodec
ranked_codecs = aac_codec ∷ sbc_codec ∷ []

abbrev pub same_codec : OffloadCodec → OffloadCodec → Bool
same_codec aac_codec aac_codec = true
same_codec sbc_codec sbc_codec = true
same_codec _ _ = false

-- `std::find_if` over the ranked codecs, by identifier.
unfoldable pub find_codec : CodecId → List OffloadCodec → Option OffloadCodec
find_codec id [] = none
find_codec id (c ∷ cs) = if codec_id_eqb id (info c).id then some c else find_codec id cs

unfoldable pub get_codec : CodecId → Option OffloadCodec
get_codec id = find_codec id ranked_codecs

pub record A2dpRemoteCapabilities : Type 0 where
  pub seid : ℕ
  pub id : CodecId
  pub capabilities : List ℕ

pub record A2dpConfigurationHint : Type 0 where
  pub codec_id : CodecId
  pub codec_parameters : Option CodecParameters

pub record A2dpConfiguration : Type 0 where
  pub id : CodecId
  pub configuration : List ℕ
  pub parameters : CodecParameters
  pub remote_seid : ℕ

unfoldable pub find_remote : CodecId → List A2dpRemoteCapabilities → Option A2dpRemoteCapabilities
find_remote id [] = none
find_remote id (rc ∷ rcs) = if codec_id_eqb id rc.id then some rc else find_remote id rcs

-- `GetConfiguration` returns false, or true with the status that its assertion compares to `OK`;
-- both with what stands behind the `configuration` pointer. `undefined` is the read of
-- `*hinted_codec` where no codec has the hinted identifier: the iterator is the end of the vector.
pub data Selection : Type 0 where
  undefined : Selection
  not_found : A2dpConfiguration → Selection
  found : A2dpConfiguration → A2dpStatus → Selection

-- `std::copy_if` of the codecs that are not the hinted one.
unfoldable pub others : OffloadCodec → List OffloadCodec → List OffloadCodec
others h [] = []
others h (c ∷ cs) = if same_codec c h then others h cs else c ∷ others h cs

-- What follows a successful `BuildConfiguration` in the loop.
unfoldable pub accept :
    OffloadCodec → A2dpRemoteCapabilities → A2dpConfiguration → Parsed CodecParameters → Selection
accept c rc cfg (parsed p) =
    found (record cfg { id = (info c).id; parameters = p; remote_seid = rc.seid }) ok
accept c rc cfg (fails s) = found (record cfg { id = (info c).id; remote_seid = rc.seid }) s

-- The loop over the codecs.
unfoldable pub try_codecs :
    List A2dpRemoteCapabilities
    → Option CodecParameters
    → List OffloadCodec
    → A2dpConfiguration
    → Selection
try_codecs remotes params [] cfg = not_found cfg
try_codecs remotes params (c ∷ cs) cfg = elim (find_remote (info c).id remotes) [
  | none ↦ try_codecs remotes params cs cfg
  | some rc ↦ elim (build c rc.capabilities params cfg.configuration) [
    | refused v ↦ try_codecs remotes params cs (record cfg { configuration = v })
    | built v ↦ accept c rc (record cfg { configuration = v }) (parse c v)
  ]
]

unfoldable pub get_configuration :
    List A2dpRemoteCapabilities → A2dpConfigurationHint → A2dpConfiguration → Selection
get_configuration remotes hint cfg = elim (find_codec hint.codec_id ranked_codecs) [
  | none ↦ undefined
  | some h ↦ try_codecs remotes hint.codec_parameters (h ∷ others h ranked_codecs) cfg
]
