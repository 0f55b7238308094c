-- ===== src/Fsm/Create/Tests.antt =====
-- The first document of a service of doors, and one whose id is a part of its factory's link.
use xenon_ext.Prelude.{ℕ, ◌≡◌, refl, true, some, [], ◌∷◌, String}
use xenon_ext.HashMap.{HashMap}
use xenon_ext.Link.{before_last_slash, self_link_to_id}
use xenon_ext.Effect.{Attempt, value, raise, null_pointer, done}
use xenon_ext.Fsm.Representation.{new_representation}
use xenon_ext.Fsm.Behaviour.{OperationRef}
use xenon_ext.Fsm.Config.{StateMachineConfig}
use xenon_ext.Fsm.Dot.{generate_dot_file, generate_history_dot_file}
use xenon_ext.Fsm.Stats.{svc_graphson, doc_graphson}
use xenon_ext.Fsm.Create.{Instance, is_plain, svc_uri_of}
use xenon_ext.Fsm.Create.Registered.{create, handle_create-serves}
use xenon_ext.Jaxrs.Client.Replacing.{replace_all}

abbrev door : StateMachineConfig ℕ
door = record {
  init_state = some "open";
  state_configuration = ("open", new_representation "open") ∷ [];
}

abbrev no_pattern : String → String → String → Attempt String
no_pattern pattern_ replacement s = raise null_pointer

abbrev post : OperationRef
post = 0

abbrev first : Attempt (Unit {0}) × Instance (HashMap (StateMachineConfig ℕ))
first =
    create no_pattern (λ op. done tt) (done tt) door "/fsm/door/7" "Door" post
      (record { do_registration = true; world = [] })

handle_create-serves_example :
    (first.0 ≡ value tt)
    × (svc_graphson "/fsm/door" first.1.world ≡ value (("/fsm/door", generate_dot_file door) ∷ []))
    × (doc_graphson {E = ℕ} "/fsm/door/7" [] first.1.world
        ≡ value (("/fsm/door/7", generate_history_dot_file {E = ℕ} []) ∷ []))
    × (create no_pattern (λ op. done tt) (done tt) door "/fsm/door/7" "Door" post first.1
        ≡ (value tt, first.1))
unfolding before_last_slash is_plain self_link_to_id
handle_create-serves_example =
    handle_create-serves no_pattern (λ op. done tt) (done tt) door "/fsm/door/7" "/fsm/door" "Door"
      post [] tt [] (λ op w. refl) refl refl refl refl

-- An id that starts another part of the link is removed there as well.
removed_twice :
    svc_uri_of no_pattern "/fsm/doors/door" (self_link_to_id "/fsm/doors/door") ≡ value "/fsms"
unfolding svc_uri_of is_plain self_link_to_id replace_all
removed_twice = refl
