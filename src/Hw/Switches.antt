-- ===== src/Hw/Switches.antt =====
-- What a text of parameters asks of the port of an output stream, in the words of Life.
use Prim.Native.String.{String}
use device_phh_treble_doze.Base.{
  ◌≡◌, refl, sym, subst, Bool, true, false, List, [], ◌∷◌, ◌++◌, ℕ, arith, if◌then◌else◌,
  Bool-cases, ◌⊎◌, inl, inr, Option, none, some,
}
use device_phh_treble_doze.Codecs.Software.{PcmConfiguration}
use device_phh_treble_doze.Session.Types.{SessionType}
use device_phh_treble_doze.Hw.Types.{disabled, started, state_eqb, Env, is_a2dp_port}
use device_phh_treble_doze.Hw.Port.{concat, in_use, deliver_all, stop}
use device_phh_treble_doze.Hw.Life.{Input, switch_off, switch_on, next, run}
use device_phh_treble_doze.Hw.Out.{StreamOut, ok, close_port}
use device_phh_treble_doze.Hw.Params.{
  ParamNames, parse_audio_params, lookup, is_value, same, is_empty, asks_config, set_a2dp_suspended,
  apply_a2dp_suspended, apply_closing, reload_config, apply_params, out_set_parameters,
}
use device_phh_treble_doze.Hw.Streams.{settled_out, close_port-Follows}
use device_phh_treble_doze.Hw.Refine.{
  join-Follows, Follows-in_use, inputs_of, settle-Follows, Follows, deliver_all-Follows,
}
use device_phh_treble_doze.Hw.Waiting.{suspend-same, asked}

module _ (code : SessionType → ℕ) where
  set_a2dp_suspended-Follows :
      (out : StreamOut) (env : Env) (value : Bool)
      → in_use code out.port ≡ true
      → let (moved, rest) = set_a2dp_suspended code out env value in
        Follows out.port (if value then switch_off ∷ [] else switch_on ∷ []) moved.port
        × ((rest ≡ env.during ++ concat env.wakes) ⊎ (moved.port.state ≡ disabled))
  unfolding set_a2dp_suspended stop run next
  set_a2dp_suspended-Follows out env true h = elim (Bool-cases (state_eqb out.port.state started)) [
    | inl plays ↦ (ground (arith, suspend-same code out.port env), inr (ground arith))
    | inr other ↦ (ground arith, inl (ground arith))
  ]
  set_a2dp_suspended-Follows out env false h = (ground arith, inl refl)

  apply_closing-Follows :
      (out : StreamOut) (asked : Bool)
      → in_use code out.port ≡ true
      → Follows out.port (if asked then switch_off ∷ [] else []) (apply_closing code out asked).port
        × ((out.port.state ≡ disabled) → (apply_closing code out asked).port.state ≡ disabled)
  unfolding apply_closing run close_port
  apply_closing-Follows out true h = (close_port-Follows code out h, λ e. ground arith)
  apply_closing-Follows out false h = ((refl, refl, refl), λ e. e)

  -- What the parameters ask of the port.
  abbrev pub suspended_inputs : SessionType → Option String → List Input
  suspended_inputs t none = []
  suspended_inputs t (some value) =
      if is_a2dp_port t then (if same value "true" then switch_off ∷ [] else switch_on ∷ []) else []

  apply_a2dp_suspended-Follows :
      (out : StreamOut) (env : Env) (value : Option String)
      → in_use code out.port ≡ true
      → let (moved, rest) = apply_a2dp_suspended code out env value in
        Follows out.port (suspended_inputs out.port.session_type value) moved.port
        × ((rest ≡ env.during ++ concat env.wakes) ⊎ (moved.port.state ≡ disabled))
  unfolding apply_a2dp_suspended run
  apply_a2dp_suspended-Follows out env none h = ((refl, refl, refl), inl refl)
  apply_a2dp_suspended-Follows out env (some value) h =
      elim (Bool-cases (is_a2dp_port out.port.session_type)) [
        | inl a2dp ↦ rw a2dp (set_a2dp_suspended-Follows out env (same value "true") h)
        | inr other ↦ rw other ((refl, refl, refl), inl refl)
      ]

  reload-port :
      (pcm_of : ℕ → PcmConfiguration) (out : StreamOut) (env : Env)
      → (reload_config code pcm_of out env).port ≡ out.port
  unfolding reload_config
  reload-port pcm_of out env = ground arith

  abbrev closing_inputs : Bool → List Input
  closing_inputs asked = if asked then switch_off ∷ [] else []

  apply_moves-Follows :
      (out : StreamOut) (env : Env) (value : Option String) (closing exiting : Bool)
      → in_use code out.port ≡ true
      → let (moved, rest) = apply_a2dp_suspended code out env value in
        Follows out.port
          (((suspended_inputs out.port.session_type value ++ closing_inputs closing)
              ++ closing_inputs exiting)
            ++ inputs_of out.port.cookie (env.during ++ concat env.wakes))
          (deliver_all code
            (apply_closing code (apply_closing code moved closing) exiting).port
            rest)
  apply_moves-Follows out env value closing exiting used =
      let (moved, rest) = apply_a2dp_suspended code out env value in
      let closed : StreamOut = apply_closing code moved closing in
      let left : StreamOut = apply_closing code closed exiting in
      let is = suspended_inputs out.port.session_type value in
      let (first, kept) = apply_a2dp_suspended-Follows out env value used in
      let moved_used = Follows-in_use code out.port moved.port is first used in
      let (second, off2) = apply_closing-Follows moved closing moved_used in
      let closed_used =
        Follows-in_use code moved.port closed.port (closing_inputs closing) second moved_used in
      let (third, off3) = apply_closing-Follows closed exiting closed_used in
      let both =
        join-Follows code out.port moved.port closed.port is (closing_inputs closing) first
          second in
      let all_three =
        join-Follows code out.port closed.port left.port (is ++ closing_inputs closing)
          (closing_inputs exiting) both third in
      settle-Follows code out.port left.port
        ((is ++ closing_inputs closing) ++ closing_inputs exiting) rest
        (env.during ++ concat env.wakes) used all_three
        (elim kept [ inl same ↦ inl same | inr d ↦ inr (off3 (off2 d)) ])

  module _ (names : ParamNames) where
    -- What a text of parameters asks of the port.
    abbrev pub params_inputs : SessionType → List (String × String) → List Input
    params_inputs t params =
        (suspended_inputs t (lookup params "A2dpSuspended")
          ++ closing_inputs (is_value (lookup params names.closing) "true"))
        ++ closing_inputs (is_value (lookup params names.exiting) "1")

    pub apply_params-Follows :
        (pcm_of : ℕ → PcmConfiguration) (out : StreamOut) (env : Env)
        (params : List (String × String))
        → in_use code out.port ≡ true
        → Follows out.port
            (params_inputs out.port.session_type params
              ++ inputs_of out.port.cookie (env.during ++ concat env.wakes))
            (settled_out code (apply_params code pcm_of names out env params)).port
    unfolding apply_params
    apply_params-Follows pcm_of out env params used =
        let reloaded : StreamOut =
          if asks_config code pcm_of names params then reload_config code pcm_of out env else out in
        let same_port : reloaded.port ≡ out.port = ground (arith, reload-port pcm_of out env) in
        subst
          (λ p.
            Follows p
              (params_inputs p.session_type params
                ++ inputs_of p.cookie (env.during ++ concat env.wakes))
              (settled_out code (apply_params code pcm_of names out env params)).port)
          same_port
          (apply_moves-Follows reloaded env (lookup params "A2dpSuspended")
            (is_value (lookup params names.closing) "true")
            (is_value (lookup params names.exiting) "1")
            (subst (λ p. in_use code p ≡ true) (sym same_port) used))

    pub out_set_parameters-Follows :
        (split : String → String → List String) (pcm_of : ℕ → PcmConfiguration) (out : StreamOut)
        (env : Env) (kvpairs : String)
        → in_use code out.port ≡ true
        → Follows out.port
            (params_inputs out.port.session_type (parse_audio_params split kvpairs)
              ++ inputs_of out.port.cookie (env.during ++ concat env.wakes))
            (settled_out code (out_set_parameters code pcm_of names split out env kvpairs)).port
    unfolding out_set_parameters lookup
    out_set_parameters-Follows split pcm_of out env kvpairs used =
        at (parse_audio_params split kvpairs)
      where
        at :
            (params : List (String × String))
            → Follows out.port
                (params_inputs out.port.session_type params
                  ++ inputs_of out.port.cookie (env.during ++ concat env.wakes))
                (settled_out code (
                  if is_empty params
                  then (out, ok, env.during ++ concat env.wakes)
                  else apply_params code pcm_of names out env params)).port
        at [] = deliver_all-Follows code out.port (env.during ++ concat env.wakes) used
        at (kv ∷ params) = apply_params-Follows pcm_of out env (kv ∷ params) used
