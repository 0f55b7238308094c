-- ===== src/Fsm/Dot/Growth.antt =====
-- How a call on the representation of a state adds to the edges of a diagram.
use mathlib.Core.List.{Perm, perm_middle, perm_append_comm}
use mathlib.Core.List.Perm
use mathlib.Core.Option
use xenon_ext.Prelude.{
  ◌≡◌, refl, ap, none, some, List, [], ◌∷◌, ◌++◌, String, str_eq, eq_iff, arith, append_assoc,
  Bool-cases, inl, inr,
}
use xenon_ext.HashMap.{HashMap, get, put, put_if_absent, get-put, get-put_if_absent}
use xenon_ext.Fsm.Behaviour.{TriggerBehaviour}
use xenon_ext.Fsm.Representation.{StateRepresentation, new_representation, add_trigger_behaviour}
use xenon_ext.Fsm.Config.{StateMachineConfig, get_or_create_representation, on_representation}
use xenon_ext.Fsm.Config.Edits.{representation_or_new}
use xenon_ext.Fsm.Dot.Edges.{Edge, edge_of, behaviour_edges, trigger_edges, state_edges}

behaviour_edges-snoc :
    (s : String) (bs : List TriggerBehaviour) (b : TriggerBehaviour)
    → behaviour_edges s (bs ++ b ∷ []) ≡ behaviour_edges s bs ++ edge_of s b ∷ []
behaviour_edges-snoc s [] b = refl
behaviour_edges-snoc s (x ∷ bs) b = ap (λ es. edge_of s x ∷ es) (behaviour_edges-snoc s bs b)

trigger_edges-new :
    (s t : String) (m : HashMap (List TriggerBehaviour))
    → get t m ≡ none
    → trigger_edges s (put t [] m) ≡ trigger_edges s m
unfolding get put
trigger_edges-new s t [] h = refl
trigger_edges-new s t ((j, bs) ∷ m) h = ground (arith, trigger_edges-new s t m)

trigger_edges-absent :
    (s t : String) (m : HashMap (List TriggerBehaviour))
    → trigger_edges s (put_if_absent t [] m) ≡ trigger_edges s m
unfolding put_if_absent
trigger_edges-absent s t m = ground (arith, trigger_edges-new s t m)

-- Moving a new item from behind a list to its front.
perm_snoc_append {ℓ} :
    {A : Type ℓ} (xs : List A) (y : A) (zs : List A) → Perm ((xs ++ y ∷ []) ++ zs) (y ∷ (xs ++ zs))
perm_snoc_append xs y zs = rw (append_assoc xs (y ∷ []) zs) (perm_middle xs zs)

pub perm_exchange {ℓ} :
    {A : Type ℓ} (xs ys zs : List A) → Perm (xs ++ (ys ++ zs)) (ys ++ (xs ++ zs))
perm_exchange xs ys zs =
    rw (← append_assoc xs ys zs, ← append_assoc ys xs zs)
      (Perm.append_right zs (perm_append_comm xs ys))

trigger_edges-put :
    (s t : String) (b : TriggerBehaviour) (bs : List TriggerBehaviour)
    (m : HashMap (List TriggerBehaviour))
    → get t m ≡ some bs
    → Perm (trigger_edges s (put t (bs ++ b ∷ []) m)) (edge_of s b ∷ trigger_edges s m)
unfolding get put
trigger_edges-put s t b bs [] found = cc
trigger_edges-put s t b bs ((j, cs) ∷ m) found = elim (Bool-cases (str_eq j t)) [
  | inl same ↦
      let this : cs ≡ bs = ground arith in
      rw (same, this, behaviour_edges-snoc s bs b)
        (perm_snoc_append (behaviour_edges s bs) (edge_of s b) (trigger_edges s m))
  | inr other ↦ rw other (
      Perm.trans
        (Perm.append_left (behaviour_edges s cs) (trigger_edges-put s t b bs m (ground arith)))
        (perm_middle (behaviour_edges s cs) (trigger_edges s m)))
]

pub trigger_edges-add :
    {W : Type 0} (s : String) (b : TriggerBehaviour) (r : StateRepresentation W)
    → Perm
        (trigger_edges s (add_trigger_behaviour b r).trigger_behaviours)
        (edge_of s b ∷ trigger_edges s r.trigger_behaviours)
unfolding add_trigger_behaviour
trigger_edges-add s b r =
    let m = put_if_absent b.trigger [] r.trigger_behaviours in
    let there : get b.trigger m ≡ some (Option.get_or (get b.trigger m) []) = ground (
      arith,
      get-put_if_absent b.trigger b.trigger [] r.trigger_behaviours,
      eq_iff b.trigger b.trigger,
    ) in
    rw (trigger_edges-absent s b.trigger r.trigger_behaviours) at
      (trigger_edges-put s b.trigger b (Option.get_or (get b.trigger m) []) m there)

module _ {W : Type 0} where
  state_edges-put :
      (s : String) (es : List Edge) (r r' : StateRepresentation W)
      (m : HashMap (StateRepresentation W))
      → get s m ≡ some r
      → Perm (trigger_edges s r'.trigger_behaviours) (es ++ trigger_edges s r.trigger_behaviours)
      → Perm (state_edges (put s r' m)) (es ++ state_edges m)
  unfolding get put
  state_edges-put s es r r' [] found more = cc
  state_edges-put s es r r' ((j, q) ∷ m) found more = elim (Bool-cases (str_eq j s)) [
    | inl same ↦
        let this : q ≡ r = ground arith in
        let key : j ≡ s = (eq_iff j s).0 same in
        rw
          (
            same,
            this,
            key,
            ← append_assoc es (trigger_edges s r.trigger_behaviours) (state_edges m),
          )
          (Perm.append_right (state_edges m) more)
    | inr other ↦ rw other (
        Perm.trans
          (Perm.append_left (trigger_edges j q.trigger_behaviours)
            (state_edges-put s es r r' m (ground arith) more))
          (perm_exchange (trigger_edges j q.trigger_behaviours) es (state_edges m)))
  ]

  state_edges-new :
      (s : String) (m : HashMap (StateRepresentation W))
      → get s m ≡ none
      → state_edges (put s (new_representation s) m) ≡ state_edges m
  unfolding get put new_representation
  state_edges-new s [] h = refl
  state_edges-new s ((j, r) ∷ m) h = ground (arith, state_edges-new s m)

  pub state_edges-create :
      (s : String) (c : StateMachineConfig W)
      → state_edges (get_or_create_representation s c).state_configuration
        ≡ state_edges c.state_configuration
  unfolding get_or_create_representation
  state_edges-create s c = ground (arith, state_edges-new s c.state_configuration)

  get-create :
      (s : String) (c : StateMachineConfig W)
      → get s (get_or_create_representation s c).state_configuration
        ≡ some (representation_or_new c s)
  unfolding get_or_create_representation representation_or_new
  get-create s c =
      ground (arith, get-put s s (new_representation s) c.state_configuration, eq_iff s s)

  on_representation_lem :
      (f : StateRepresentation W → StateRepresentation W) (s : String) (c : StateMachineConfig W)
      (r : StateRepresentation W)
      → get s c.state_configuration ≡ some r
      → on_representation f s c
        ≡ record c { state_configuration = put s (f r) c.state_configuration }
  unfolding on_representation
  on_representation_lem f s c r there = ground arith

  -- A call on the representation of a state adds to the edges of the configuration what it adds
  -- to those of the representation.
  pub state_edges-on :
      (f : StateRepresentation W → StateRepresentation W) (s : String) (es : List Edge)
      (c : StateMachineConfig W)
      → ((r : StateRepresentation W)
          → Perm
              (trigger_edges s (f r).trigger_behaviours)
              (es ++ trigger_edges s r.trigger_behaviours))
      → Perm
          (state_edges
            (on_representation f s (get_or_create_representation s c)).state_configuration)
          (es ++ state_edges c.state_configuration)
  state_edges-on f s es c more =
      let c' = get_or_create_representation s c in
      let r = representation_or_new c s in
      let there = get-create s c in
      rw (← state_edges-create s c, on_representation_lem f s c' r there)
        (state_edges-put s es r (f r) c'.state_configuration there (more r))
