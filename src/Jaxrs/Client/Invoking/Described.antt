-- ===== src/Jaxrs/Client/Invoking/Described.antt =====
-- A client calls a method as if it described the method at the call.
use xenon_ext.Prelude.{
  ◌≡◌, refl, sym, ap, ◌∙◌, subst, Bool, true, inl, inr, Bool-cases, Option, none, some, List, [],
  ◌∷◌, String, All, Among, map, keep, All-keep, All-images, arith,
}
use xenon_ext.HashMap.{HashMap}
use xenon_ext.Effect.{Attempt, value}
use xenon_ext.Jaxrs.Metadata.{
  Method, MethodInfo, and_then, add_selected, parse_action, select_methods, complete_info,
  complete_all, generate_method_info,
}
use xenon_ext.Jaxrs.Metadata.Methods.{
  and_then-value, parse_action-http_name, complete_info-Describes, Describes, is_exposed,
  generate_method_info_lem,
}
use xenon_ext.Jaxrs.Client.Invoking.{first_info, find_info, or_generated, method_info_of}

module _ (actions : List String) (resolution : HashMap String) where
  -- The description of a method is that of its method alone.
  abbrev pub StandsAlone : MethodInfo → Type 0
  StandsAlone i = generate_method_info actions (i.method ∷ []) resolution ≡ value (i ∷ [])

  -- A public method with the action that its annotations give.
  abbrev Picked : Method × String → Type 0
  Picked (m, action) =
      (m.is_public ≡ true) × (parse_action actions m.annotations ≡ value (some action))

  add_selected-Picked :
      (m : Method) (rest : Attempt (List (Method × String))) (o : Option String)
      (selected : List (Method × String))
      → m.is_public ≡ true
      → parse_action actions m.annotations ≡ value o
      → ((l : List (Method × String)) → rest ≡ value l → All Picked l)
      → add_selected m rest o ≡ value selected
      → All Picked selected
  unfolding add_selected
  add_selected-Picked m rest none selected open_ at_o ih h = ih selected h
  add_selected-Picked m rest (some action) selected open_ at_o ih h =
      let (l, at_l, h₁) = and_then-value (λ l. value ((m, action) ∷ l)) rest selected h in
      let same : (m, action) ∷ l ≡ selected = ground arith in
      subst (All Picked) same ((open_, at_o), ih l at_l)

  select_methods-Picked :
      (methods : List Method) (selected : List (Method × String))
      → select_methods actions methods ≡ value selected
      → All Picked selected
  unfolding select_methods
  select_methods-Picked [] selected h =
      let same : [] ≡ selected = ground arith in subst (All Picked) same tt
  select_methods-Picked (m ∷ ms) selected h = elim (Bool-cases m.is_public) [
    | inl open_ ↦
        let (o, at_o, h₁) =
          and_then-value (add_selected m (select_methods actions ms))
            (parse_action actions m.annotations) selected (ground arith) in
        add_selected-Picked m (select_methods actions ms) o selected open_ at_o
          (λ l e. select_methods-Picked ms l e) h₁
    | inr closed ↦ select_methods-Picked ms selected (ground arith)
  ]

  complete_info-StandsAlone :
      (m : Method) (action : String) (i : MethodInfo)
      → Picked (m, action)
      → complete_info resolution (m, action) ≡ value i
      → StandsAlone i
  unfolding generate_method_info select_methods complete_all add_selected
  complete_info-StandsAlone m action i (open_, at_action) h =
      let (method, described) =
        complete_info-Describes resolution m action i
          (parse_action-http_name actions m.annotations (some action) at_action) h in
      let selected : select_methods actions (m ∷ []) ≡ value ((m, action) ∷ []) =
        ground (arith, open_, at_action) in
      subst (λ n. generate_method_info actions (n ∷ []) resolution ≡ value (i ∷ [])) (sym method)
        (ap (and_then (complete_all resolution)) selected
          ∙ ap (and_then (λ (j : MethodInfo). value (j ∷ []))) h)

  complete_all-StandsAlone :
      (selected : List (Method × String)) (infos : List MethodInfo)
      → All Picked selected
      → complete_all resolution selected ≡ value infos
      → All StandsAlone infos
  unfolding complete_all
  complete_all-StandsAlone [] infos all h =
      let same : [] ≡ infos = ground arith in subst (All StandsAlone) same tt
  complete_all-StandsAlone ((m, action) ∷ selected) infos (first, all) h =
      let (i, at_i, h₁) = and_then-value _ (complete_info resolution (m, action)) infos h in
      let (rest, at_rest, h₂) =
        and_then-value (λ l. value (i ∷ l)) (complete_all resolution selected) infos h₁ in
      let same : i ∷ rest ≡ infos = ground arith in
      subst (All StandsAlone) same (
        complete_info-StandsAlone m action i first at_i,
        complete_all-StandsAlone selected rest all at_rest,
      )

  pub generate_method_info-StandsAlone :
      (methods : List Method) (infos : List MethodInfo)
      → generate_method_info actions methods resolution ≡ value infos
      → All StandsAlone infos
  unfolding generate_method_info
  generate_method_info-StandsAlone methods infos h =
      let (selected, at_selected, h₁) =
        and_then-value (complete_all resolution) (select_methods actions methods) infos h in
      complete_all-StandsAlone selected infos (select_methods-Picked methods selected at_selected)
        h₁

  module _ (equals : Method → Method → Bool) (m : Method) where
    -- A method that is equal to `m` only if it is `m`.
    abbrev pub IsToldApart : Method → Type 0
    IsToldApart n = equals n m ≡ true → n ≡ m

    or_generated-find_info :
        (infos : List MethodInfo)
        → All (λ i. IsToldApart i.method) infos
        → All StandsAlone infos
        → or_generated equals actions resolution m (find_info equals actions m infos)
          ≡ or_generated equals actions resolution m none
    unfolding find_info or_generated first_info
    or_generated-find_info [] apart all = refl
    or_generated-find_info (i ∷ infos) (told, apart) (alone, all) =
        elim (Bool-cases (equals i.method m)) [
          | inl same ↦ rw same (
              subst
                (λ n.
                  value i ≡ and_then first_info (generate_method_info actions (n ∷ []) resolution))
                (told same) (sym (ap (and_then first_info) alone)))
          | inr other ↦ rw other (or_generated-find_info infos apart all)
        ]

    found_described :
        (infos : List MethodInfo)
        → equals m m ≡ true
        → All (λ i. IsToldApart i.method) infos
        → All Describes infos
        → Among m (map (λ i. i.method) infos)
        → (i : MethodInfo) × (find_info equals actions m infos ≡ some i)
          × (i.method ≡ m)
          × Describes i
    unfolding find_info
    found_described [] self apart all there = elim there [ ]
    found_described (j ∷ infos) self apart (described, all) (inl e) =
        let same = subst (λ n. equals n m ≡ true) e self in (j, rw same refl, sym e, described)
    found_described (j ∷ infos) self (told, apart) (described, all) (inr later) =
        elim (Bool-cases (equals j.method m)) [
          | inl same ↦ (j, rw same refl, told same, described)
          | inr other ↦
              let (i, found, method, lem) = found_described infos self apart all later in
              (i, rw other found, method, lem)
        ]

    module _ (methods : List Method) (infos : List MethodInfo)
        (parsed : generate_method_info actions methods resolution ≡ value infos) where
      infos_apart : All IsToldApart methods → All (λ i. IsToldApart i.method) infos
      infos_apart apart =
          All-images IsToldApart (λ i. i.method) infos
            (subst (All IsToldApart)
              (sym (generate_method_info_lem actions methods resolution infos parsed).0)
              (All-keep IsToldApart is_exposed methods apart))

      -- The description that a call finds is the one that it would generate.
      pub method_info_of-generated :
          All IsToldApart methods
          → method_info_of equals actions resolution infos m
            ≡ method_info_of equals actions resolution [] m
      unfolding method_info_of find_info
      method_info_of-generated apart =
          or_generated-find_info infos (infos_apart apart)
            (generate_method_info-StandsAlone methods infos parsed)

      -- The description that a call of an exposed method finds.
      pub method_info_of-exposed :
          equals m m ≡ true
          → All IsToldApart methods
          → Among m (keep is_exposed methods)
          → (i : MethodInfo) × (method_info_of equals actions resolution infos m ≡ value i)
            × (i.method ≡ m)
            × Describes i
      unfolding method_info_of or_generated
      method_info_of-exposed self apart there =
          let (kept, all) = generate_method_info_lem actions methods resolution infos parsed in
          let (i, found, method, lem) =
            found_described infos self (infos_apart apart) all (subst (Among m) (sym kept) there) in
          (i, rw found refl, method, lem)
