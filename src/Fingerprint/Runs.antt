-- ===== src/Fingerprint/Runs.antt =====
-- Runs of the threads of hal/anakin-fp/BiometricsFingerprint.cpp.
use device_phh_treble_doze.Base.{ℕ, ◌≡◌, refl, ◌∙◌, List, [], ◌∷◌, Option, none, some}
use device_phh_treble_doze.Fingerprint.Goodix.{
  Command, GoodixCommand, Sensor, free, new_sensor, enqueue_goodix_command, at, without, Step,
  touches, lifts, proceeds, serves, exchanges_spot, closes_spot, spots, checks, compares, exchanges,
  loads, enqueues, sensor_step, sensor_run, check_finger, check_sequence, exchange,
}
use device_phh_treble_doze.Fingerprint.Settled.{
  IsLight, IsLightCommand, All-without, Holds, All-at, enqueue-IsSettled,
}
use device_phh_treble_doze.Fingerprint.Coherent.{
  IsCoherent, settle, unsettle, serve-IsCoherent, enqueue_holder, on_finger_down-IsCoherent,
  on_finger_up-IsCoherent, proceed-IsCoherent, when_free-IsCoherent, on_spot-IsCoherent,
  exchange_spot-IsCoherent, close_spot-IsCoherent, check_finger-IsCoherent,
  check_sequence-IsCoherent, exchange-IsCoherent,
}

enqueue-IsCoherent :
    (c : GoodixCommand) (s : Sensor)
    → IsLight c
    → s.holder ≡ free
    → IsCoherent s
    → IsCoherent (enqueue_goodix_command c s)
enqueue-IsCoherent c s light e h =
    unsettle (enqueue_goodix_command c s) (enqueue_holder c s ∙ e)
      (enqueue-IsSettled c s light (settle s e h))

sensor_step-IsCoherent : (e : Step) (s : Sensor) → IsCoherent s → IsCoherent (sensor_step e s)
unfolding sensor_step
sensor_step-IsCoherent touches s h = on_finger_down-IsCoherent s h
sensor_step-IsCoherent lifts s h = on_finger_up-IsCoherent s h
sensor_step-IsCoherent proceeds s h = proceed-IsCoherent s h
sensor_step-IsCoherent serves s h = when_free-IsCoherent s _ h (λ e. serve-IsCoherent s e h)
sensor_step-IsCoherent (spots ready) s h = on_spot-IsCoherent ready s h
sensor_step-IsCoherent exchanges_spot s h = exchange_spot-IsCoherent s h
sensor_step-IsCoherent closes_spot s h = close_spot-IsCoherent s h
sensor_step-IsCoherent (checks n) s h = go (at s.waiting n)
  where
    go :
        (o : Option ℕ)
        → IsCoherent (elim o [
          | none ↦ s
          | some sequence ↦ check_finger sequence (record s { waiting = without s.waiting n })
        ])
    go none = h
    go (some k) = check_finger-IsCoherent k (record s { waiting = without s.waiting n }) h
sensor_step-IsCoherent (compares n) s h = go (at s.seen n)
  where
    go :
        (o : Option ℕ)
        → IsCoherent (elim o [
          | none ↦ s
          | some sequence ↦ check_sequence sequence (record s { seen = without s.seen n })
        ])
    go none = h
    go (some k) = check_sequence-IsCoherent k (record s { seen = without s.seen n }) h
sensor_step-IsCoherent (exchanges n) s h = go (at s.checked n)
  where
    go :
        (o : Option ℕ)
        → IsCoherent (elim o [
          | none ↦ s
          | some sequence ↦ exchange sequence (record s { checked = without s.checked n })
        ])
    go none = h
    go (some k) = exchange-IsCoherent k (record s { checked = without s.checked n }) h
sensor_step-IsCoherent (loads n) s (r, (f, a, l)) =
    go (at s.armed n) (All-at IsLightCommand s.armed n a)
  where
    go :
        (o : Option Command)
        → Holds IsLightCommand o
        → IsCoherent (elim o [
          | none ↦ s
          | some c ↦ record s {
            armed = without s.armed n;
            calling = record { sequence = s.sequence; command = c } ∷ s.calling;
          }
        ])
    go none light = (r, (f, a, l))
    go (some c) light = (r, (f, All-without IsLightCommand s.armed n a, (light, l)))
sensor_step-IsCoherent (enqueues n) s (r, (f, a, l)) =
    when_free-IsCoherent s _ (r, (f, a, l))
      (λ e. go e (at s.calling n) (All-at IsLight s.calling n l))
  where
    go :
        s.holder ≡ free
        → (o : Option GoodixCommand) → Holds IsLight o
        → IsCoherent (elim o [
          | none ↦ s
          | some c ↦ enqueue_goodix_command c (record s { calling = without s.calling n })
        ])
    go e none light = (r, (f, a, l))
    go e (some c) light =
        enqueue-IsCoherent c (record s { calling = without s.calling n }) light e
          (r, (f, a, All-without IsLight s.calling n l))

pub sensor_run-IsCoherent :
    (es : List Step) (s : Sensor) → IsCoherent s → IsCoherent (sensor_run es s)
unfolding sensor_run
sensor_run-IsCoherent [] s h = h
sensor_run-IsCoherent (e ∷ es) s h =
    sensor_run-IsCoherent es (sensor_step e s) (sensor_step-IsCoherent e s h)

-- From a new sensor, in every interleaving of the accesses that the finger, the two sources of light
-- and the thread of commands make: while no call of the finger holds the mutex, the queue holds only
-- commands of the present state of the finger, the last request to the display is for bright while the
-- finger is down, and when it is for bright with the finger up, the command that is followed by the
-- opposite request is in the queue. The daemon is sent `light_area_stable` and `finger_down` only with
-- the finger down and after a request for bright that still stands, `light_area_close` and `finger_up`
-- only with the finger up. Whether the display has become bright is not part of the claim.
pub sensor_run_lem : (es : List Step) → IsCoherent (sensor_run es new_sensor)
sensor_run_lem es = sensor_run-IsCoherent es new_sensor ((tt, refl, refl), (tt, tt, tt))
