-- ===== src/Fsm/Stats.antt =====
-- stats/FSMStatsServiceImpl.java: the registry of the state machines, and the diagrams that it
-- serves.
pub mod Served
pub mod Monitored
mod Tests
use xenon_ext.Prelude.{Option, none, some, List, [], ◌∷◌, String}
use xenon_ext.HashMap.{HashMap, get, put, keys}
use xenon_ext.Link.{before_last_slash}
use xenon_ext.Effect.{Throwable, null_pointer, user_exception, Attempt, value, raise}
use xenon_ext.Fsm.Representation.{◌<>◌}
use xenon_ext.Fsm.Config.{StateMachineConfig}
use xenon_ext.Fsm.Document.{FsmServiceDoc}
use xenon_ext.Fsm.Dot.{generate_dot_file, generate_history_dot_file}

-- What loading a class by its name and instantiating it come to: an exception, an interface, or the
-- configuration of the service.
pub data Loaded (W : Type 0) : Type 0 where
  failed is_interface : Loaded W
  configured : StateMachineConfig W → Loaded W

module _ {W : Type 0} where
  -- `registerSvc(uri, svcClass)`, by the configuration of the class.
  unfoldable pub register_class :
      String
      → StateMachineConfig W
      → HashMap (StateMachineConfig W)
      → HashMap (StateMachineConfig W)
  register_class uri config services = put uri config services

  unfoldable pub all_services : HashMap (StateMachineConfig W) → List String
  all_services services = keys services

  -- `registerSvc(uri, className)`: what it returns, or the message of its HttpError, and the
  -- registry after it.
  unfoldable pub register_svc :
      String
      → String
      → Loaded W
      → HashMap (StateMachineConfig W)
      → Attempt (List String) × HashMap (StateMachineConfig W)
  unfolding register_class
  register_svc uri class_name failed services =
      (raise (user_exception ("Unable to find a class named " <> class_name)), services)
  register_svc uri class_name is_interface services = (value (keys services), services)
  register_svc uri class_name (configured config) services =
      let after = register_class uri config services in (value (keys after), after)

  unfoldable pub graph_of :
      String
      → Option (StateMachineConfig W)
      → (StateMachineConfig W → String)
      → Attempt (HashMap String)
  graph_of uri none draw = raise null_pointer
  graph_of uri (some config) draw = value ((uri, draw config) ∷ [])

  unfoldable pub svc_graphson : String → HashMap (StateMachineConfig W) → Attempt (HashMap String)
  unfolding graph_of
  svc_graphson uri services = graph_of uri (get uri services) generate_dot_file

  unfoldable pub history_of :
      {E : Type 0}
      → String
      → Option String
      → List (FsmServiceDoc E)
      → HashMap (StateMachineConfig W)
      → Attempt (HashMap String)
  unfolding graph_of
  history_of uri none docs services = raise (user_exception "StringIndexOutOfBoundsException")
  history_of uri (some svc_uri) docs services =
      graph_of uri (get svc_uri services) (λ config. generate_history_dot_file docs)

  -- `docGraphson`, where `docs` is what its query answers.
  unfoldable pub doc_graphson :
      {E : Type 0}
      → String
      → List (FsmServiceDoc E)
      → HashMap (StateMachineConfig W)
      → Attempt (HashMap String)
  unfolding history_of before_last_slash
  doc_graphson uri docs services = history_of uri (before_last_slash uri) docs services
