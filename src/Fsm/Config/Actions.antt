-- ===== src/Fsm/Config/Actions.antt =====
-- What holds of every action that the calls of a program configure holds of the actions of its
-- states.
use xenon_ext.Prelude.{
  List, [], ◌∷◌, String, str_eq, Bool-cases, inl, inr, All, All-append, All-map,
}
use xenon_ext.Fsm.Representation.{Action, entered_by}
use xenon_ext.Fsm.Config.{Call, entry, entry_from, exits}
use xenon_ext.Fsm.Config.Edits.{state_of}
use xenon_ext.Fsm.Config.Declared.{declared, entries, exit_actions_of}

module _ {W : Type 0} where
  declared-All {ℓ κ} :
      {A : Type ℓ} (P : A → Type κ) (part : Call W → List A) (s : String) (calls : List (Call W))
      → All (λ call. All P (part call)) calls
      → All P (declared part s calls)
  unfolding declared
  declared-All P part s [] h = tt
  declared-All P part s (call ∷ calls) (p, h) =
      let rest = declared-All P part s calls h in
      elim (Bool-cases (str_eq (state_of call) s)) [
        | inl same ↦ rw same (All-append P (part call) _ p rest)
        | inr other ↦ rw other rest
      ]

  module _ {ℓ} (P : Action W → Type ℓ) where
    abbrev pub OfActions : Call W → Type ℓ
    OfActions (entry s a) = P a
    OfActions (entry_from s t a) = P a
    OfActions (exits s a) = P a
    OfActions _ = Unit

    exits-All : (call : Call W) → OfActions call → All P (exit_actions_of call)
    unfolding exit_actions_of
    exits-All (exits s a) h = (h, tt)
    exits-All _ h = tt

    pub declared-exits-All :
        (s : String) (calls : List (Call W))
        → All OfActions calls
        → All P (declared exit_actions_of s calls)
    declared-exits-All s calls h =
        declared-All P exit_actions_of s calls (All-map exits-All calls h)

    module _ (lift : (t : String) (a : Action W) → P a → P (entered_by t a)) where
      entries-All : (call : Call W) → OfActions call → All P (entries call)
      unfolding entries
      entries-All (entry s a) h = (h, tt)
      entries-All (entry_from s t a) h = (lift t a h, tt)
      entries-All _ h = tt

      pub declared-entries-All :
          (s : String) (calls : List (Call W))
          → All OfActions calls
          → All P (declared entries s calls)
      declared-entries-All s calls h = declared-All P entries s calls (All-map entries-All calls h)
