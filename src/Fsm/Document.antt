-- ===== src/Fsm/Document.antt =====
-- FSMServiceDoc.java: the state document of a state machine service.
use xenon_ext.Prelude.{ℕ, Option, String}
use xenon_ext.HashMap.{HashMap}

-- `extension` holds the fields that a subclass adds; of those of `ServiceDocument` the code reads
-- the two below.
pub record FsmServiceDoc (E : Type 0) : Type 0 where
  pub document_self_link : String
  pub document_version : ℕ
  pub state : Option String
  pub trigger : Option String
  pub expiry_trigger_and_delays : Option (HashMap ℕ)
  pub expire_from_state : Option String
  pub extension : E
