-- ===== src/Fsm/Config/Closed.antt =====
-- Programs of builder calls whose destinations are all configured.
use xenon_ext.Prelude.{
  ◌≡◌, true, List, [], ◌∷◌, String, str_eq, eq_iff, arith, Bool-cases, inl, inr, All, All-append,
}
use xenon_ext.Fsm.Behaviour.{TriggerBehaviour, new_transition_behaviour, is_guard_condition_met}
use xenon_ext.Fsm.Representation.{contains, met_guards}
use xenon_ext.Fsm.Config.{Call, permits, permits_if, permits_reentry, permits_reentry_if}
use xenon_ext.Fsm.Config.Edits.{state_of}
use xenon_ext.Fsm.Config.Declared.{permitted, declared}
use xenon_ext.Fsm.Config.Configured.{states_of}

abbrev EndsIn : List String → TriggerBehaviour → Type 0
EndsIn states b = contains states b.destination ≡ true

met_guards_end :
    (states : List String) (bs : List TriggerBehaviour)
    → All (EndsIn states) bs
    → All (EndsIn states) (met_guards bs)
unfolding met_guards
met_guards_end states [] h = tt
met_guards_end states (b ∷ bs) (p, h) =
    let rest = met_guards_end states bs h in
    elim (Bool-cases (is_guard_condition_met b)) [
      | inl met ↦ rw met (p, rest)
      | inr unmet ↦ rw unmet rest
    ]

module _ {W : Type 0} where
  -- A transition to another state leads into one of the given states.
  abbrev pub LeadsInto : List String → Call W → Type 0
  LeadsInto states (permits s t d) = contains states d ≡ true
  LeadsInto states (permits_if s t d g) = contains states d ≡ true
  LeadsInto states _ = Unit

  -- Every destination of the program is a state that some call of it names.
  abbrev pub IsClosed : List (Call W) → Type 0
  IsClosed calls = All (LeadsInto (states_of calls)) calls

  abbrev IsNamed : List String → Call W → Type 0
  IsNamed states call = contains states (state_of call) ≡ true

  IsNamed-after :
      (s : String) (states : List String) (calls : List (Call W))
      → All (IsNamed states) calls
      → All (IsNamed (s ∷ states)) calls
  unfolding contains
  IsNamed-after s states [] h = tt
  IsNamed-after s states (call ∷ calls) (p, h) = (ground arith, IsNamed-after s states calls h)

  All-IsNamed : (calls : List (Call W)) → All (IsNamed (states_of calls)) calls
  unfolding contains
  All-IsNamed [] = tt
  All-IsNamed (call ∷ calls) = (
    ground (arith, eq_iff (state_of call) (state_of call)),
    IsNamed-after (state_of call) (states_of calls) calls (All-IsNamed calls),
  )

  permitted_ends :
      (states : List String) (t : String) (call : Call W)
      → IsNamed states call
      → LeadsInto states call
      → All (EndsIn states) (permitted t call)
  unfolding permitted new_transition_behaviour state_of
  permitted_ends states t (permits s t' d) named leads = ground arith
  permitted_ends states t (permits_if s t' d g) named leads = ground arith
  permitted_ends states t (permits_reentry s t') named leads = ground arith
  permitted_ends states t (permits_reentry_if s t' g) named leads = ground arith
  permitted_ends states t _ named leads = tt

  declared_ends :
      (states : List String) (s t : String) (calls : List (Call W))
      → All (IsNamed states) calls
      → All (LeadsInto states) calls
      → All (EndsIn states) (declared (permitted t) s calls)
  unfolding declared
  declared_ends states s t [] named leads = tt
  declared_ends states s t (call ∷ calls) (n, named) (l, leads) =
      let rest = declared_ends states s t calls named leads in
      elim (Bool-cases (str_eq (state_of call) s)) [
        | inl same ↦ rw same (
            All-append (EndsIn states) (permitted t call) _ (permitted_ends states t call n l) rest)
        | inr other ↦ rw other rest
      ]

  -- In a closed program the one behaviour whose guard is met leads into a state that it names.
  pub open_behaviour_ends :
      (calls : List (Call W)) (src trigger : String) (b : TriggerBehaviour)
      → IsClosed calls
      → met_guards (declared (permitted trigger) src calls) ≡ b ∷ []
      → contains (states_of calls) b.destination ≡ true
  open_behaviour_ends calls src trigger b closed one =
      (rw one at (
        met_guards_end (states_of calls) _
          (declared_ends (states_of calls) src trigger calls (All-IsNamed calls) closed))).0
