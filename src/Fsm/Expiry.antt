-- ===== src/Fsm/Expiry.antt =====
-- ExpiryScheduler.java: the timers of a state.
use xenon_ext.Prelude.{ℕ, some, [], ◌∷◌, String}
use xenon_ext.HashMap.{HashMap}
use xenon_ext.Effect.{modify}
use xenon_ext.Fsm.Behaviour.{Transition}
use xenon_ext.Fsm.Representation.{ExpiryAction}
use xenon_ext.Fsm.Document.{FsmServiceDoc}
use xenon_ext.Fsm.Xenon.{Xenon, ExpiryTask}

unfoldable pub expiring : {E : Type 0} → HashMap ℕ → Transition → FsmServiceDoc E → FsmServiceDoc E
expiring delays t d = record d {
  expire_from_state = some t.destination;
  expiry_trigger_and_delays = some delays;
}

module _ {E W : Type 0} (x : Xenon E W) (self_link : String) where
  -- The loop over the map that schedules a task for each trigger.
  unfoldable pub schedule_all : HashMap ℕ → Transition → W → W
  schedule_all [] t w = w
  schedule_all ((expiry_trigger, delay) ∷ delays) t w = schedule_all delays t (
      x.schedule
        (record {
          self_link = self_link;
          expiry_trigger = expiry_trigger;
          from_state = t.destination;
          delay = delay;
        })
        w)

  unfoldable pub accept : ExpiryAction W
  unfolding schedule_all expiring
  accept delays t =
      modify λ w.
        schedule_all delays t (x.set_state t.cause (expiring delays t (x.get_state t.cause w)) w)

-- The body that a task sends, from the document that it has fetched.
unfoldable pub expiry_body : {E : Type 0} → ExpiryTask → FsmServiceDoc E → FsmServiceDoc E
expiry_body task body = record body {
  trigger = some task.expiry_trigger;
  state = some task.from_state;
}

-- A task whose time has come, with the document that its request has fetched; a request that fails
-- is left out.
unfoldable pub run_task : {E W : Type 0} → Xenon E W → ExpiryTask → FsmServiceDoc E → W → W
unfolding expiry_body
run_task x task fetched w = x.send_patch task.self_link (expiry_body task fetched) w
