-- ===== src/A2dp/Factory/Laws.antt =====
-- `GetConfiguration` of A2dpOffloadCodecFactory.cpp: its assertion, and the order of its codecs.
use device_phh_treble_doze.Base.{
  ℕ, ◌≡◌, refl, List, [], ◌∷◌, Option, none, some, inl, inr, Option-cases, arith, sym, ◌∙◌, ap,
  subst, ◌⊎◌,
}
use device_phh_treble_doze.A2dp.Codec.{other, CodecParameters, A2dpStatus, ok}
use device_phh_treble_doze.A2dp.Codec.Parsing.{parsed, map_parsed}
use device_phh_treble_doze.A2dp.Codec.Building.{Building, built, refused}
use device_phh_treble_doze.A2dp.Aac.RoundTrip.{aac_parse-build}
use device_phh_treble_doze.A2dp.Sbc.RoundTrip.{sbc_parse-build}
use device_phh_treble_doze.A2dp.Aac.Codec.{codec_info as aac_info}
use device_phh_treble_doze.A2dp.Sbc.Codec.{codec_info as sbc_info}
use device_phh_treble_doze.A2dp.Factory.{
  OffloadCodec, aac_codec, sbc_codec, info, parse, build, ranked_codecs, find_codec,
  A2dpRemoteCapabilities, A2dpConfigurationHint, A2dpConfiguration, find_remote, undefined, found,
  others, accept, try_codecs, get_configuration,
}

-- Each codec accepts what it builds.
parse-build :
    (c : OffloadCodec) (rcaps : List ℕ) (params : Option CodecParameters) (prior v : List ℕ)
    → build c rcaps params prior ≡ built v
    → (p : CodecParameters) × (parse c v ≡ parsed p)
unfolding build parse
parse-build aac_codec rcaps params prior v e =
    let r = aac_parse-build rcaps params prior v e in (_, ap (map_parsed (λ p. p.codec)) r.1)
parse-build sbc_codec rcaps params prior v e =
    let r = sbc_parse-build rcaps params prior v e in (_, ap (map_parsed (λ p. p.codec)) r.1)

-- A codec with capabilities of the same identifier in the list, whose parser gives the parameters.
pub record IsAnswer (remotes : List A2dpRemoteCapabilities) (cfg : A2dpConfiguration) : Type 0 where
  pub codec : OffloadCodec
  pub remote : A2dpRemoteCapabilities
  pub listed : find_remote (info codec).id remotes ≡ some remote
  pub same_id : cfg.id ≡ (info codec).id
  pub same_seid : cfg.remote_seid ≡ remote.seid
  pub agrees : parse codec cfg.configuration ≡ parsed cfg.parameters

module _ (remotes : List A2dpRemoteCapabilities) (params : Option CodecParameters)
    (c : OffloadCodec) (cs : List OffloadCodec) (cfg : A2dpConfiguration) where
  try_missing :
      find_remote (info c).id remotes ≡ none
      → try_codecs remotes params (c ∷ cs) cfg ≡ try_codecs remotes params cs cfg
  unfolding try_codecs
  try_missing miss = ground arith

  try_refused :
      (rc : A2dpRemoteCapabilities) (v : List ℕ)
      → find_remote (info c).id remotes ≡ some rc
      → build c rc.capabilities params cfg.configuration ≡ refused v
      → try_codecs remotes params (c ∷ cs) cfg
        ≡ try_codecs remotes params cs (record cfg { configuration = v })
  unfolding try_codecs
  try_refused rc v here miss = ground arith

  try_built :
      (rc : A2dpRemoteCapabilities) (v : List ℕ) (p : CodecParameters)
      → find_remote (info c).id remotes ≡ some rc
      → build c rc.capabilities params cfg.configuration ≡ built v
      → parse c v ≡ parsed p
      → try_codecs remotes params (c ∷ cs) cfg
        ≡ found
            (record { id = (info c).id; configuration = v; parameters = p; remote_seid = rc.seid })
            ok
  unfolding try_codecs accept
  try_built rc v p here done agrees = ground arith

Building-cases : (m : Building) → ((v : List ℕ) × (m ≡ built v)) ⊎ ((v : List ℕ) × (m ≡ refused v))
Building-cases (built v) = inl (v, refl)
Building-cases (refused v) = inr (v, refl)

found_parts :
    {a b : A2dpConfiguration} {s t : A2dpStatus} → found a s ≡ found b t → (a ≡ b) × (s ≡ t)
found_parts e = ground arith

try_codecs-IsAnswer :
    (remotes : List A2dpRemoteCapabilities) (params : Option CodecParameters)
    (cs : List OffloadCodec) (cfg cfg' : A2dpConfiguration) (s : A2dpStatus)
    → try_codecs remotes params cs cfg ≡ found cfg' s
    → (s ≡ ok) × IsAnswer remotes cfg'
try_codecs-IsAnswer remotes params [] cfg cfg' s e = absurd (unfold try_codecs in ground arith)
try_codecs-IsAnswer remotes params (c ∷ cs) cfg cfg' s e =
    elim (Option-cases (find_remote (info c).id remotes)) [
      | inl miss ↦
          try_codecs-IsAnswer remotes params cs cfg cfg' s
            (sym (try_missing remotes params c cs cfg miss) ∙ e)
      | inr (rc, here) ↦ elim (Building-cases (build c rc.capabilities params cfg.configuration)) [
        | inl (v, done) ↦
            let (p, agrees) = parse-build c rc.capabilities params cfg.configuration v done in
            let (same, passed) =
              found_parts (sym (try_built remotes params c cs cfg rc v p here done agrees) ∙ e) in
            (
              sym passed,
              subst (IsAnswer remotes) same (record {
                codec = c;
                remote = rc;
                listed = here;
                same_id = refl;
                same_seid = refl;
                agrees = agrees;
              }),
            )
        | inr (v, miss) ↦
            try_codecs-IsAnswer remotes params cs (record cfg { configuration = v }) cfg' s
              (sym (try_refused remotes params c cs cfg rc v here miss) ∙ e)
      ]
    ]

hinted_tries :
    (remotes : List A2dpRemoteCapabilities) (hint : A2dpConfigurationHint) (cfg : A2dpConfiguration)
    → (get_configuration remotes hint cfg ≡ undefined)
      ⊎ ((h : OffloadCodec) × (find_codec hint.codec_id ranked_codecs ≡ some h)
          × (get_configuration remotes hint cfg
              ≡ try_codecs remotes hint.codec_parameters (h ∷ others h ranked_codecs) cfg))
unfolding get_configuration
hinted_tries remotes hint cfg = elim (Option-cases (find_codec hint.codec_id ranked_codecs)) [
  | inl miss ↦ inl (ground arith)
  | inr (h, here) ↦ inr (h, here, ground arith)
]

-- A configuration that `GetConfiguration` returns passes the assertion of the code. It belongs to a
-- codec for which the remote list has capabilities, carries that codec's identifier and that entry's
-- end point, and its parameters are those that the codec's parser reads from its bytes.
pub factory_assert :
    (remotes : List A2dpRemoteCapabilities) (hint : A2dpConfigurationHint)
    (cfg cfg' : A2dpConfiguration) (s : A2dpStatus)
    → get_configuration remotes hint cfg ≡ found cfg' s
    → (s ≡ ok) × IsAnswer remotes cfg'
factory_assert remotes hint cfg cfg' s e = elim (hinted_tries remotes hint cfg) [
  | inl never ↦ absurd (ground arith)
  | inr (h, _, tries) ↦
      try_codecs-IsAnswer remotes hint.codec_parameters (h ∷ others h ranked_codecs) cfg cfg' s
        (sym tries ∙ e)
]

-- Where the hinted codec can build a configuration for the remote side, `GetConfiguration` returns
-- the one that it builds.
pub factory_prefers_hint :
    (remotes : List A2dpRemoteCapabilities) (hint : A2dpConfigurationHint) (cfg : A2dpConfiguration)
    (h : OffloadCodec) (rc : A2dpRemoteCapabilities) (v : List ℕ)
    → find_codec hint.codec_id ranked_codecs ≡ some h
    → find_remote (info h).id remotes ≡ some rc
    → build h rc.capabilities hint.codec_parameters cfg.configuration ≡ built v
    → (p : CodecParameters) × (parse h v ≡ parsed p)
      × (get_configuration remotes hint cfg
          ≡ found
              (record {
                id = (info h).id;
                configuration = v;
                parameters = p;
                remote_seid = rc.seid;
              })
              ok)
unfolding get_configuration
factory_prefers_hint remotes hint cfg h rc v is_hint here done =
    let (p, agrees) =
      parse-build h rc.capabilities hint.codec_parameters cfg.configuration v done in
    (
      p,
      agrees,
      rw (is_hint, get_configuration)
          (try_built remotes hint.codec_parameters h (others h ranked_codecs) cfg rc v p here done
            agrees),
    )

-- For a hint with an identifier other than those of SBC and AAC, `GetConfiguration` reads through
-- the end iterator, whatever the remote side offers.
pub factory_unknown_hint :
    (remotes : List A2dpRemoteCapabilities) (hint : A2dpConfigurationHint) (cfg : A2dpConfiguration)
    (n : ℕ)
    → hint.codec_id ≡ other n
    → get_configuration remotes hint cfg ≡ undefined
unfolding get_configuration find_codec info sbc_info aac_info
factory_unknown_hint remotes hint cfg n e = ground arith
