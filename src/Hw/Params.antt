-- ===== src/Hw/Params.antt =====
-- `ParseAudioParams` of bluetooth/audio/hw/utils.cc, and `out_set_parameters` of stream_apis.cc. The
-- splitting of a text and the names that come from system/audio.h are parameters.
use Prim.Native.Nat.{Ordering}
use Prim.Native.String.{String, compare}
use device_phh_treble_doze.Base.{
  ℕ, Bool, true, false, ◌||◌, List, [], ◌∷◌, ◌++◌, Option, none, some, if◌then◌else◌,
}
use device_phh_treble_doze.Codecs.Software.{PcmConfiguration}
use device_phh_treble_doze.Session.Types.{SessionType, Event}
use device_phh_treble_doze.Hw.Types.{disabled, standby, started, state_eqb, Env, is_a2dp_port}
use device_phh_treble_doze.Hw.Port.{concat, suspend, stop}
use device_phh_treble_doze.Hw.Config.{load_output_config}
use device_phh_treble_doze.Hw.Out.{StreamOut, Retval, ok, own_config, close_port}

abbrev pub same : String → String → Bool
same a b = elim (compare a b) [ Ordering.eq ↦ true | _ ↦ false ]

-- `params_map[key] = value`, `params_map.find(key)` and `params_map[key] == value`.
unfoldable pub insert : List (String × String) → String → String → List (String × String)
insert [] key value = (key, value) ∷ []
insert ((k, v) ∷ params) key value =
    if same k key then (k, value) ∷ params else (k, v) ∷ insert params key value

unfoldable pub lookup : List (String × String) → String → Option String
lookup [] key = none
lookup ((k, v) ∷ params) key = if same k key then some v else lookup params key

abbrev pub is_found : Option String → Bool
is_found none = false
is_found (some v) = true

abbrev pub is_value : Option String → String → Bool
is_value none value = false
is_value (some v) value = same v value

abbrev pub second_or_empty : List String → String
second_or_empty [] = ""
second_or_empty (v ∷ vs) = v

-- A segment that is split at `=`; a split gives at least one part.
unfoldable pub add_segment : List (String × String) → List String → List (String × String)
add_segment params [] = params
add_segment params (key ∷ values) =
    if same key "" then params else insert params key (second_or_empty values)

-- The names in system/audio.h.
pub record ParamNames : Type 0 where
  pub sup_sampling_rates : String
  pub sup_channels : String
  pub sup_formats : String
  pub closing : String
  pub exiting : String

module _ (split : String → String → List String) where
  unfoldable pub parse_segments : List (String × String) → List String → List (String × String)
  parse_segments params [] = params
  parse_segments params (segment ∷ segments) =
      parse_segments (if same segment "" then params else add_segment params (split segment "="))
        segments

  unfoldable pub parse_audio_params : String → List (String × String)
  parse_audio_params params = parse_segments [] (split params ";")

abbrev pub is_empty : List (String × String) → Bool
is_empty [] = true
is_empty (kv ∷ params) = false

module _ (code : SessionType → ℕ) where
  -- What `A2dpSuspended` does with the value `true`, and with any other.
  unfoldable pub set_a2dp_suspended : StreamOut → Env → Bool → StreamOut × List Event
  set_a2dp_suspended out env true =
      if state_eqb out.port.state started
      then (let (p, done, rest) = suspend code out.port env in
          (record out { frames_rendered = 0; port = record p { state = disabled } }, rest))
      else (
        record out {
          frames_rendered = 0;
          port = if state_eqb out.port.state disabled then out.port else stop code out.port;
        },
        env.during ++ concat env.wakes,
      )
  set_a2dp_suspended out env false = (
    if state_eqb out.port.state disabled
        then record out { port = record out.port { state = standby } }
        else out,
    env.during ++ concat env.wakes,
  )

  unfoldable pub apply_a2dp_suspended : StreamOut → Env → Option String → StreamOut × List Event
  apply_a2dp_suspended out env none = (out, env.during ++ concat env.wakes)
  apply_a2dp_suspended out env (some value) =
      if is_a2dp_port out.port.session_type
      then set_a2dp_suspended out env (same value "true")
      else (out, env.during ++ concat env.wakes)

  -- `closing=true` and `exiting=1`.
  unfoldable pub apply_closing : StreamOut → Bool → StreamOut
  apply_closing out asked = if asked then close_port code out else out

  module _ (pcm_of : ℕ → PcmConfiguration) where
    unfoldable pub reload_config : StreamOut → Env → StreamOut
    reload_config out env =
        let (cfg, loaded) = load_output_config code pcm_of out.port env.session (own_config out) in
        if loaded
        then record out {
          sample_rate = cfg.sample_rate;
          channel_mask = cfg.channel_mask;
          format = cfg.format;
        }
        else out

    module _ (names : ParamNames) where
      unfoldable pub asks_config : List (String × String) → Bool
      asks_config params =
          is_found (lookup params names.sup_sampling_rates)
          || (is_found (lookup params names.sup_channels)
              || is_found (lookup params names.sup_formats))

      -- `LeAudioSuspended` and the routing are only written to the log.
      unfoldable pub apply_params :
          StreamOut → Env → List (String × String) → StreamOut × Retval × List Event
      apply_params out env params =
          let reloaded = if asks_config params then reload_config out env else out in
          let (moved, rest) = apply_a2dp_suspended reloaded env (lookup params "A2dpSuspended") in
          let closed = apply_closing moved (is_value (lookup params names.closing) "true") in
          (apply_closing closed (is_value (lookup params names.exiting) "1"), ok, rest)

      unfoldable pub out_set_parameters :
          (String → String → List String)
          → StreamOut
          → Env
          → String
          → StreamOut × Retval × List Event
      out_set_parameters split out env kvpairs =
          let params = parse_audio_params split kvpairs in
          if is_empty params
          then (out, ok, env.during ++ concat env.wakes)
          else apply_params out env params
