-- ===== src/Fsm/Create/Registered.antt =====
-- The first document that is created registers its service with the statistics service.
use xenon_ext.Prelude.{◌≡◌, refl, true, false, some, List, [], ◌∷◌, String}
use xenon_ext.HashMap.{HashMap}
use xenon_ext.Link.{before_last_slash, self_link_to_id}
use xenon_ext.Link.Removing.{occurrences, replace_all-id}
use xenon_ext.Effect.{Attempt, value, Comp}
use xenon_ext.Fsm.Representation.{◌<>◌}
use xenon_ext.Fsm.Behaviour.{OperationRef}
use xenon_ext.Fsm.Config.{StateMachineConfig}
use xenon_ext.Fsm.Document.{FsmServiceDoc}
use xenon_ext.Fsm.Dot.{generate_dot_file, generate_history_dot_file}
use xenon_ext.Fsm.Stats.{configured, register_svc, svc_graphson, doc_graphson}
use xenon_ext.Fsm.Stats.Served.{register_svc-graphs}
use xenon_ext.Fsm.Create.{Instance, is_plain, svc_uri_of, register_with, register_if, handle_create}

svc_uri_of-link :
    (replace_pattern : String → String → String → Attempt String) (link uri : String)
    → before_last_slash link ≡ some uri
    → is_plain (self_link_to_id link) ≡ true
    → occurrences ("/" <> self_link_to_id link) link ≡ 1
    → svc_uri_of replace_pattern link (self_link_to_id link) ≡ value uri
unfolding svc_uri_of
svc_uri_of-link replace_pattern link uri h plain once =
    rw (plain, replace_all-id link uri h once) refl

module _ {V C : Type 0} (replace_pattern : String → String → String → Attempt String)
    (handle_base : OperationRef → Comp (HashMap (StateMachineConfig V)) (Unit {0}))
    (build : Comp (HashMap (StateMachineConfig V)) C) (config : StateMachineConfig V) where
  -- `handleCreate` of a document whose class loads as a service with this configuration.
  abbrev pub create :
      String → String → OperationRef → Comp (Instance (HashMap (StateMachineConfig V))) (Unit {0})
  create link class_name post =
      handle_create replace_pattern handle_base build
        (λ client uri name. register_svc uri name (configured config)) link (self_link_to_id link)
        class_name post

  abbrev pub registered :
      String → String → HashMap (StateMachineConfig V) → Instance (HashMap (StateMachineConfig V))
  registered uri class_name services = record {
    do_registration = false;
    world = (register_svc uri class_name (configured config) services).1;
  }

  create-first :
      (link uri class_name : String) (post : OperationRef)
      (services : HashMap (StateMachineConfig V)) (client : C)
      → handle_base post services ≡ (value tt, services)
      → build services ≡ (value client, services)
      → svc_uri_of replace_pattern link (self_link_to_id link) ≡ value uri
      → create link class_name post (record { do_registration = true; world = services })
        ≡ (value tt, registered uri class_name services)
  unfolding handle_create register_if register_with register_svc
  create-first link uri class_name post services client base built at_uri =
      rw (base, built, at_uri) refl

  create-later :
      (link class_name : String) (post : OperationRef)
      (s : Instance (HashMap (StateMachineConfig V)))
      → s.do_registration ≡ false
      → handle_base post s.world ≡ (value tt, s.world)
      → create link class_name post s ≡ (value tt, s)
  unfolding handle_create register_if
  create-later link class_name post s done_before base = rw (base, done_before) refl

  -- If the id of a document stands for itself in a pattern and occurs once behind a slash in its
  -- link, its creation by an instance that has not registered yet registers the link before the
  -- id: the statistics service then serves the diagram of the class for that link, and the diagram
  -- of the versions of the document for the link of the document. A further creation by the same
  -- instance changes nothing. The class can be loaded and has the configuration; and
  -- what the framework does at a creation and the making of the client leave the registry alone.
  pub handle_create-serves :
      {E : Type 0} (link uri class_name : String) (post : OperationRef)
      (services : HashMap (StateMachineConfig V)) (client : C) (docs : List (FsmServiceDoc E))
      → ((op : OperationRef) (w : HashMap (StateMachineConfig V))
          → handle_base op w ≡ (value tt, w))
      → build services ≡ (value client, services)
      → before_last_slash link ≡ some uri
      → is_plain (self_link_to_id link) ≡ true
      → occurrences ("/" <> self_link_to_id link) link ≡ 1
      → let first =
          create link class_name post (record { do_registration = true; world = services }) in
        (first.0 ≡ value tt)
        × (svc_graphson uri first.1.world ≡ value ((uri, generate_dot_file config) ∷ []))
        × (doc_graphson link docs first.1.world
            ≡ value ((link, generate_history_dot_file docs) ∷ []))
        × (create link class_name post first.1 ≡ (value tt, first.1))
  handle_create-serves link uri class_name post services client docs base built h plain once =
      let made =
        create-first link uri class_name post services client (base post services) built
          (svc_uri_of-link replace_pattern link uri h plain once) in
      let (graph, (history, others)) =
        register_svc-graphs uri class_name link uri config services docs h in
      rw made (
        refl,
        graph,
        history,
        create-later link class_name post (registered uri class_name services) refl
            (base post (registered uri class_name services).world),
      )
