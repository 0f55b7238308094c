-- ===== src/Fsm/Service/Start.antt =====
-- What `handleStart` does in each case.
use xenon_ext.Prelude.{
  ◌≡◌, ◌≢◌, refl, ◌⊎◌, Bool, true, false, Option, none, some, String, eq_iff, arith, if◌then◌else◌,
  ◌==◌,
}
use xenon_ext.Effect.{illegal_argument}
use xenon_ext.Fsm.Behaviour.{OperationRef}
use xenon_ext.Fsm.Machine.{StateMachine, init_state}
use xenon_ext.Fsm.Document.{FsmServiceDoc}
use xenon_ext.Fsm.Xenon.{Xenon}
use xenon_ext.Fsm.Service.{
  http_ok, http_bad_request, to_string, initialised, start_with, handle_start,
  self_patch_if_present,
}

initialised-some :
    {E : Type 0} (initial s : String) (d : FsmServiceDoc E)
    → d.state ≡ some s
    → initialised initial d ≡ d
unfolding initialised
initialised-some initial s d e = ground arith

initialised_initial :
    {E : Type 0} (initial : String) (d : FsmServiceDoc E)
    → (d.state ≡ none) ⊎ (d.state ≡ some initial)
    → initialised initial d ≡ record d { state = some initial }
unfolding initialised
initialised_initial initial d e = ground arith

module _ {E W : Type 0} (x : Xenon E W) (m : StateMachine W)
    (validate : OperationRef → W → Bool × W) (trigger : OperationRef → W → Option String)
    (uri : String) (op : OperationRef) (w : W) where
  -- A start in a state other than the initial one is completed as it was sent, with no self patch.
  -- One with no state or the initial state is completed in the initial state, and then the
  -- initial trigger, if the subclass has one, is sent as a self patch. One that is not valid fails
  -- with status 400 if the subclass has not set a status, and is left to the subclass otherwise.
  pub handle_start_lem :
      let initial = to_string (init_state m) "Start" in
      let given = x.get_body op (validate op w).1 in
      let completed =
        λ (body : FsmServiceDoc E). x.complete op (x.set_body op body (validate op w).1) in
      ((s : String)
        → (validate op w).0 ≡ true
        → given.state ≡ some s
        → s ≢ initial
        → handle_start x m validate trigger uri op w ≡ completed given)
      × ((validate op w).0 ≡ true
          → (given.state ≡ none) ⊎ (given.state ≡ some initial)
          → let body = record given { state = some initial } in
            handle_start x m validate trigger uri op w
            ≡ self_patch_if_present x uri body (trigger op (completed body)) (completed body))
      × ((validate op w).0 ≡ false
          → handle_start x m validate trigger uri op w ≡ (
              if x.get_status_code op (validate op w).1 == http_ok
              then x.fail op
                  (illegal_argument "Body not valid")
                  (x.set_status_code op http_bad_request (validate op w).1)
              else (validate op w).1))
  unfolding handle_start
  handle_start_lem =
      let initial = to_string (init_state m) "Start" in
      let sent = x.get_body op (validate op w).1 in
      (
        λ s valid given other.
            rw (valid, initialised-some initial s sent given)
              (unfold start_with in ground (arith, eq_iff s initial)),
        λ valid given.
            rw (valid, initialised_initial initial sent given)
              (unfold start_with in rw ((eq_iff initial initial).1 refl)),
        λ invalid. rw invalid,
      )
