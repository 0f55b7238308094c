-- ===== src/Fsm/Xenon.antt =====
-- What xenon-fsm uses of the Xenon framework: the operations of a stateful service on the world,
-- and what they do to one another. Nothing here is code of the repository.
use xenon_ext.Prelude.{ℕ, ◌≡◌, String}
use xenon_ext.Effect.{Throwable}
use xenon_ext.Fsm.Behaviour.{OperationRef}
use xenon_ext.Fsm.Document.{FsmServiceDoc}

-- A task of the host's scheduled executor: after `delay` milliseconds it fetches the document and
-- patches it with the trigger and the state.
pub record ExpiryTask : Type 0 where
  pub self_link : String
  pub expiry_trigger : String
  pub from_state : String
  pub delay : ℕ

pub record Xenon (E W : Type 0) : Type 0 where
  pub get_state : OperationRef → W → FsmServiceDoc E
  pub set_state : OperationRef → FsmServiceDoc E → W → W
  pub get_body : OperationRef → W → FsmServiceDoc E
  pub set_body : OperationRef → FsmServiceDoc E → W → W
  pub complete : OperationRef → W → W
  pub fail : OperationRef → Throwable → W → W
  pub get_status_code : OperationRef → W → ℕ
  pub set_status_code : OperationRef → ℕ → W → W
  -- `sendRequest` of a patch to a document, with a body.
  pub send_patch : String → FsmServiceDoc E → W → W
  pub schedule : ExpiryTask → W → W

-- An operation that is linked to a document reads what was last set, and nothing else that these
-- calls do changes the document.
pub record XenonLaws {E W : Type 0} (x : Xenon E W) : Type 0 where
  pub get_state-set_state :
      (op : OperationRef) (d : FsmServiceDoc E) (w : W) → x.get_state op (x.set_state op d w) ≡ d
  pub get_body-set_body :
      (op : OperationRef) (d : FsmServiceDoc E) (w : W) → x.get_body op (x.set_body op d w) ≡ d
  pub get_body-set_state :
      (op : OperationRef) (d : FsmServiceDoc E) (w : W)
      → x.get_body op (x.set_state op d w) ≡ x.get_body op w
  pub get_state-set_body :
      (op : OperationRef) (d : FsmServiceDoc E) (w : W)
      → x.get_state op (x.set_body op d w) ≡ x.get_state op w
  pub get_state-fail :
      (op : OperationRef) (e : Throwable) (w : W)
      → x.get_state op (x.fail op e w) ≡ x.get_state op w
  pub get_state-set_status_code :
      (op : OperationRef) (code : ℕ) (w : W)
      → x.get_state op (x.set_status_code op code w) ≡ x.get_state op w
  pub get_state-schedule :
      (op : OperationRef) (task : ExpiryTask) (w : W)
      → x.get_state op (x.schedule task w) ≡ x.get_state op w
