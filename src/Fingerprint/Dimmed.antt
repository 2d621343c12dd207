-- ===== src/Fingerprint/Dimmed.antt =====
-- After the finger is lifted, the thread of commands of hal/anakin-fp/BiometricsFingerprint.cpp asks
-- for the display to be dimmed.
use device_phh_treble_doze.Base.{
  ℕ, zero, suc, ap, Bool, ◌≡◌, refl, sym, subst, ◌∙◌, arith, false, List, [], ◌∷◌, length,
  replicate,
}
use device_phh_treble_doze.Fingerprint.Goodix.{
  GoodixCommand, Sensor, Stage, counts, stores_finger, resets_light, clears_queue, requests_hbm,
  pushes, Holder, free, pressing, lifting, press, lift, proceed, new_sensor, when_free,
  send_command, serve, Step, proceeds, serves, sensor_step, sensor_run,
}
use device_phh_treble_doze.Fingerprint.Coherent.{
  IsCoherent, IsReady, settle, serve-IsCoherent, serve_holder,
}
use device_phh_treble_doze.Fingerprint.Runs.{sensor_run-IsCoherent, sensor_run_lem}

serve_lem :
    (c : GoodixCommand) (cs : List GoodixCommand) (s : Sensor)
    → ((serve (c ∷ cs) s).queue ≡ cs) × ((serve (c ∷ cs) s).is_down ≡ s.is_down)
unfolding serve send_command
serve_lem c cs s = ground arith

when_free-free : (h : Holder) (s t : Sensor) → h ≡ free → when_free h s t ≡ t
when_free-free free s t e = refl
when_free-free (pressing stage) s t e = absurd (ground arith)
when_free-free (lifting stage) s t e = absurd (ground arith)

serves_free : (s : Sensor) → s.holder ≡ free → sensor_step serves s ≡ serve s.queue s
unfolding sensor_step
serves_free s e = when_free-free s.holder s (serve s.queue s) e

served :
    (cs : List GoodixCommand) (s : Sensor)
    → s.holder ≡ free
    → s.queue ≡ cs
    → s.is_down ≡ false
    → IsCoherent s
    → (sensor_run (replicate (length cs) serves) s).hbm_requested ≡ false
unfolding sensor_run sensor_step
served [] s e same up h = let (q, b, dims, f, a, l) = settle s e h in ground (arith, same, up, dims)
served (c ∷ cs) s e same up h =
    let (queue, finger) = serve_lem c cs s in
    let rest =
      served cs (serve s.queue s) (serve_holder s.queue s ∙ e)
        (subst (λ t. (serve t s).queue ≡ cs) (sym same) queue)
        (subst (λ t. (serve t s).is_down ≡ false) (sym same) (finger ∙ up))
        (serve-IsCoherent s e h) in
    subst (λ t. (sensor_run (replicate (length cs) serves) t).hbm_requested ≡ false)
      (sym (serves_free s e)) rest

-- The rest of the call of the finger under way, if any.
abbrev pub call_ends : List Step
call_ends = replicate 6 proceeds

-- The holder after a step of the call.
abbrev next : Holder → Holder
next free = free
next (pressing counts) = pressing stores_finger
next (pressing stores_finger) = pressing resets_light
next (pressing resets_light) = pressing clears_queue
next (pressing clears_queue) = pressing requests_hbm
next (pressing requests_hbm) = pressing pushes
next (pressing pushes) = free
next (lifting counts) = lifting stores_finger
next (lifting stores_finger) = lifting resets_light
next (lifting resets_light) = lifting clears_queue
next (lifting clears_queue) = lifting pushes
next (lifting requests_hbm) = lifting requests_hbm
next (lifting pushes) = free

abbrev nexts : ℕ → Holder → Holder
nexts zero h = h
nexts (suc n) h = nexts n (next h)

press-next : (stage : Stage) (s : Sensor) → (press stage s).holder ≡ next (pressing stage)
unfolding press
press-next counts s = refl
press-next stores_finger s = refl
press-next resets_light s = refl
press-next clears_queue s = refl
press-next requests_hbm s = refl
press-next pushes s = refl

lift-next :
    (stage : Stage) (s : Sensor)
    → s.holder ≡ lifting stage
    → (lift stage s).holder ≡ next (lifting stage)
unfolding lift
lift-next counts s e = refl
lift-next stores_finger s e = refl
lift-next resets_light s e = refl
lift-next clears_queue s e = refl
lift-next requests_hbm s e = e
lift-next pushes s e = refl

proceed-next : (s : Sensor) → (proceed s).holder ≡ next s.holder
unfolding proceed
proceed-next s = go s.holder refl
  where
    go :
        (h : Holder)
        → s.holder ≡ h
        → Sensor.holder (elim h as (λ _. Sensor) [
          | free ↦ s
          | pressing stage ↦ press stage s
          | lifting stage ↦ lift stage s
        ])
          ≡ next h
    go free e = e
    go (pressing stage) e = press-next stage s
    go (lifting stage) e = lift-next stage s e

steps_next : (n : ℕ) (s : Sensor) → (sensor_run (replicate n proceeds) s).holder ≡ nexts n s.holder
unfolding sensor_run sensor_step
steps_next zero s = refl
steps_next (suc n) s = steps_next n (proceed s) ∙ ap (nexts n) (proceed-next s)

six_nexts :
    (h : Holder) (sequence : ℕ) (is_down : Bool) (queue : List GoodixCommand) (requested : Bool)
    → IsReady h sequence is_down queue requested
    → nexts 6 h ≡ free
six_nexts free n d q r k = refl
six_nexts (pressing counts) n d q r k = refl
six_nexts (pressing stores_finger) n d q r k = refl
six_nexts (pressing resets_light) n d q r k = refl
six_nexts (pressing clears_queue) n d q r k = refl
six_nexts (pressing requests_hbm) n d q r k = refl
six_nexts (pressing pushes) n d q r k = refl
six_nexts (lifting counts) n d q r k = refl
six_nexts (lifting stores_finger) n d q r k = refl
six_nexts (lifting resets_light) n d q r k = refl
six_nexts (lifting clears_queue) n d q r k = refl
six_nexts (lifting requests_hbm) n d q r k = absurd k
six_nexts (lifting pushes) n d q r k = refl

call_ends-free : (s : Sensor) → IsCoherent s → (sensor_run call_ends s).holder ≡ free
call_ends-free s (r, rest) =
    steps_next 6 s ∙ six_nexts s.holder s.sequence s.is_down s.queue s.hbm_requested r

-- Whatever has happened to a new sensor: let the call of the finger that is under way, if there is
-- one, come to its end. If the finger is up then, as many rounds of the thread of commands as there are
-- commands in the queue leave the display with a request to be dimmed as the last one.
pub dimmed_after_serving :
    (es : List Step)
    → (sensor_run call_ends (sensor_run es new_sensor)).is_down ≡ false
    → (let s = sensor_run call_ends (sensor_run es new_sensor) in
        (sensor_run (replicate (length s.queue) serves) s).hbm_requested ≡ false)
dimmed_after_serving es up =
    let before = sensor_run es new_sensor in
    let s = sensor_run call_ends before in
    served s.queue s (call_ends-free before (sensor_run_lem es)) refl up
      (sensor_run-IsCoherent call_ends before (sensor_run_lem es))
