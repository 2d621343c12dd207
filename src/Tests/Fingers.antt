-- ===== src/Tests/Fingers.antt =====
-- Examples about the fingerprint HALs.
use device_phh_treble_doze.Base.{
  ◌+◌, ◌≡◌, refl, true, false, max, List, [], ◌∷◌, ◌++◌, length, replicate,
}
use device_phh_treble_doze.Fingerprint.Goodix.{
  Step, touches, lifts, proceeds, serves, spots, checks, compares, exchanges, exchanges_spot,
  enqueues, new_sensor, sensor_run, sensor_step, on_finger_up, serve, on_spot, on_finger_down,
  is_out_of_place, send_command, check_finger, check_sequence, exchange, exchange_spot, proceed,
  press, lift, enqueue_goodix_command, finger_down,
}
use device_phh_treble_doze.Fingerprint.Coherent.{IsCoherent}
use device_phh_treble_doze.Fingerprint.Runs.{sensor_run_lem}
use device_phh_treble_doze.Fingerprint.Dimmed.{call_ends, dimmed_after_serving}
use device_phh_treble_doze.Fingerprint.Filters.{sys_ok, Notice}
use device_phh_treble_doze.Fingerprint.Oplus as Oplus
use device_phh_treble_doze.Fingerprint.Oplus.{
  Report, Wrapper, shared, cancel, enumerate, on_reports,
}
use device_phh_treble_doze.Fingerprint.Answers.{
  cancels, reported_cancels, cancel_lem, IsCountdown, fingers_of, or_zero, enumerate_lem,
}

-- A press on which the light becomes stable, and which ends.
abbrev press_steps : List Step
press_steps =
    touches
    ∷ spots true
    ∷ (replicate 6 proceeds
        ++ serves
          ∷ checks 0
          ∷ compares 0
          ∷ spots true
          ∷ exchanges 0
          ∷ exchanges_spot
          ∷ enqueues 0
          ∷ serves
          ∷ lifts
          ∷ proceeds
          ∷ proceeds
          ∷ [])

sensor_run_lem_example : IsCoherent (sensor_run press_steps new_sensor)
sensor_run_lem_example = sensor_run_lem press_steps

press_lifted : (sensor_run call_ends (sensor_run press_steps new_sensor)).is_down ≡ false
unfolding sensor_run sensor_step on_finger_up serve on_spot on_finger_down is_out_of_place
    send_command check_finger check_sequence exchange exchange_spot proceed press lift
    enqueue_goodix_command
press_lifted = refl

dimmed_after_serving_example :
    (let s = sensor_run call_ends (sensor_run press_steps new_sensor) in
      (sensor_run (replicate (length s.queue) serves) s).hbm_requested ≡ false)
dimmed_after_serving_example = dimmed_after_serving press_steps press_lifted

-- The thread of the first press has checked it, and sets the flag in the second press: no thread is
-- left, and the command that the light is stable has not been queued.
abbrev late_thread : List Step
late_thread =
    touches
    ∷ (replicate 6 proceeds
        ++ checks 0
          ∷ compares 0
          ∷ lifts
          ∷ (replicate 5 proceeds
              ++ touches
                ∷ (replicate 6 proceeds
                    ++ exchanges 0
                      ∷ enqueues 0
                      ∷ checks 0
                      ∷ compares 0
                      ∷ exchanges 0
                      ∷ spots true
                      ∷ exchanges_spot
                      ∷ [])))

lost_light : sensor_run late_thread new_sensor ≡ record new_sensor {
  sequence = 3;
  is_down = true;
  light_area_is_stable = true;
  queue = record { sequence = 3; command = finger_down } ∷ [];
  hbm_requested = true;
}
unfolding sensor_run sensor_step on_finger_up serve on_spot on_finger_down is_out_of_place
    send_command check_finger check_sequence exchange exchange_spot proceed press lift
    enqueue_goodix_command
lost_light = refl

abbrev wrapper : Wrapper
wrapper = record {
  received_cancel = true;
  received_enumerate = true;
  my_device_id = 3;
  known_fingers = 11 ∷ 12 ∷ [];
  notices = [];
}

cancel_lem_example :
    cancels (cancel (Oplus.dropped ∷ []) (shared sys_ok) wrapper).0.notices
    ≡ cancels wrapper.notices + max 1 (reported_cancels (Oplus.dropped ∷ []))
cancel_lem_example = cancel_lem (Oplus.dropped ∷ []) (shared sys_ok) wrapper

silent :
    (on_reports
      (Oplus.dropped ∷ [])
      (record wrapper { received_enumerate = false })).received_enumerate
    ≡ false
unfolding on_reports Oplus.on_report
silent = refl

enumerate_lem_example :
    (let v = on_reports (Oplus.dropped ∷ []) (record wrapper { received_enumerate = false }) in
      (own : List Notice) × ((enumerate (Oplus.dropped ∷ []) (shared sys_ok) wrapper).0.notices
        ≡ v.notices ++ own)
      × IsCountdown v.my_device_id own
      × (fingers_of own ≡ or_zero v.known_fingers))
enumerate_lem_example = enumerate_lem (Oplus.dropped ∷ []) wrapper silent
