-- ===== src/Fsm/Behaviour.antt =====
-- core/Transition.java and core/TriggerBehaviour.java.
use xenon_ext.Prelude.{ℕ, Bool, true, String, str_eq}

-- A reference to a com.vmware.xenon.common.Operation, which lives in the world.
abbrev pub OperationRef : Type 0
OperationRef = ℕ

pub record Transition : Type 0 where
  pub source : String
  pub destination : String
  pub trigger : String
  pub cause : OperationRef

unfoldable pub is_reentry : Transition → Bool
is_reentry t = str_eq t.source t.destination

-- The one subclass, `TransitioningTriggerBehaviour`, has its destination here. A guard is a
-- function of the trigger: it neither changes the world nor throws.
pub record TriggerBehaviour : Type 0 where
  pub trigger : String
  pub destination : String
  pub guard : String → Bool

unfoldable pub is_guard_condition_met : TriggerBehaviour → Bool
is_guard_condition_met b = b.guard b.trigger

-- The entry of a Boolean and the destination; neither the source nor the operation is read.
unfoldable pub results_in_transition_from : TriggerBehaviour → Bool × String
results_in_transition_from b = (true, b.destination)

unfoldable pub new_transition_behaviour : String → String → (String → Bool) → TriggerBehaviour
new_transition_behaviour trigger destination guard = record {
  trigger = trigger;
  destination = destination;
  guard = guard;
}
