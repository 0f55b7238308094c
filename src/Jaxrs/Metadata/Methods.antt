-- ===== src/Jaxrs/Metadata/Methods.antt =====
-- Which methods are exposed, and how they are described.
use xenon_ext.Prelude.{
  ◌≡◌, refl, subst, ap₂, ◌∙◌, Bool, true, false, ◌&&◌, inl, inr, Option, none, some, List, [], ◌∷◌,
  sym, map, String, str_eq, arith, keep, All, Bool-cases, str_eq,
}
use xenon_ext.HashMap.{HashMap}
use xenon_ext.Effect.{Attempt, value}
use xenon_ext.Jaxrs.Paths.{parse_path_params}
use xenon_ext.Jaxrs.Metadata.{
  Method, MethodInfo, extract_params, sort_params, add_selected, action_value_of, parse_action,
  parse_return_types, select_methods, complete_info, complete_all, generate_method_info,
  future_class,
}
pub use xenon_ext.Jaxrs.Metadata.Parameters.{and_then-value}
use xenon_ext.Jaxrs.Metadata.Parameters.{
  AllRead, extract_params-indices, extract_params-AllRead, sort_params-indices,
}

-- The first of the annotations that names a HTTP method.
abbrev pub http_name : List (Option String) → Option String
http_name [] = none
http_name (none ∷ annotations) = http_name annotations
http_name (some name ∷ annotations) = some name

abbrev is_some : Option String → Bool
is_some none = false
is_some (some a) = true

-- A public method with a HTTP method among its annotations.
abbrev pub is_exposed : Method → Bool
is_exposed m = m.is_public && is_some (http_name m.annotations)

-- What is promised of the description of a method.
abbrev pub Describes : MethodInfo → Type 0
Describes i =
    (i.action ≡ http_name i.method.annotations)
    × (i.uri_path ≡ i.method.path)
    × (i.path_params_vs_uri_index ≡ parse_path_params i.method.path)
    × AllRead 0 i.method.parameters i.parameters
    × (i.async_api ≡ str_eq i.method.return_type future_class)

async-future :
    (resolution : HashMap String) (m : Method)
    → (parse_return_types resolution m).0 ≡ str_eq m.return_type future_class
unfolding parse_return_types
async-future resolution m = ground arith

pub parse_action-http_name :
    (actions : List String) (annotations : List (Option String)) (o : Option String)
    → parse_action actions annotations ≡ value o
    → o ≡ http_name annotations
unfolding parse_action action_value_of
parse_action-http_name actions [] o h = ground arith
parse_action-http_name actions (none ∷ annotations) o h =
    parse_action-http_name actions annotations o h
parse_action-http_name actions (some name ∷ annotations) o h = ground arith

-- A selected method with its action.
abbrev pub Selected : Method × String → Type 0
Selected (m, action) = some action ≡ http_name m.annotations

selected_methods : List (Method × String) → List Method
selected_methods [] = []
selected_methods ((m, action) ∷ selected) = m ∷ selected_methods selected

-- What is promised of the selection among methods.
abbrev Selects : List Method → List (Method × String) → Type 0
Selects ms selected = (selected_methods selected ≡ keep is_exposed ms) × All Selected selected

add_selected-Selects :
    (m : Method) (ms : List Method) (rest : Attempt (List (Method × String))) (o : Option String)
    (selected : List (Method × String))
    → ((l : List (Method × String)) → rest ≡ value l → Selects ms l)
    → m.is_public ≡ true
    → o ≡ http_name m.annotations
    → add_selected m rest o ≡ value selected
    → Selects (m ∷ ms) selected
unfolding add_selected selected_methods
add_selected-Selects m ms rest none selected ih open_ e h =
    let (methods, all) = ih selected h in (ground (arith, methods), all)
add_selected-Selects m ms rest (some action) selected ih open_ e h =
    let (l, at_l, h₁) = and_then-value (λ l. value ((m, action) ∷ l)) rest selected h in
    let (methods, all) = ih l at_l in
    let same : (m, action) ∷ l ≡ selected = ground arith in
    subst (Selects (m ∷ ms)) same (ground (arith, methods), (e, all))

select_methods_lem :
    (actions : List String) (methods : List Method) (selected : List (Method × String))
    → select_methods actions methods ≡ value selected
    → Selects methods selected
unfolding select_methods selected_methods
select_methods_lem actions [] selected h =
    let same : [] ≡ selected = ground arith in subst (Selects []) same (refl, tt)
select_methods_lem actions (m ∷ ms) selected h = elim (Bool-cases m.is_public) [
  | inl open_ ↦
      let (o, at_o, h₁) =
        and_then-value (add_selected m (select_methods actions ms))
          (parse_action actions m.annotations) selected (ground arith) in
      add_selected-Selects m ms (select_methods actions ms) o selected
        (λ l e. select_methods_lem actions ms l e) open_
        (parse_action-http_name actions m.annotations o at_o) h₁
  | inr closed ↦
      let (methods, all) = select_methods_lem actions ms selected (ground arith) in
      (ground (arith, methods), all)
]

pub complete_info-Describes :
    (resolution : HashMap String) (m : Method) (action : String) (i : MethodInfo)
    → Selected (m, action)
    → complete_info resolution (m, action) ≡ value i
    → (i.method ≡ m) × Describes i
unfolding complete_info
complete_info-Describes resolution m action i selected h =
    let (ps, at_ps, h₁) = and_then-value _ (extract_params m.parameters 0) i h in
    let ordered = extract_params-indices m.parameters 0 ps at_ps in
    let sorted = sort_params-indices ps m.parameters 0 ordered in
    let (async, r, t) = parse_return_types resolution m in
    let made : MethodInfo = record {
      method = m;
      parameters = sort_params ps;
      uri_path = m.path;
      action = some action;
      path_params_vs_uri_index = parse_path_params m.path;
      async_api = async;
      return_type = r;
      type_ = t;
    } in
    let same : made ≡ i = ground arith in
    subst (λ j. (j.method ≡ m) × Describes j) same
      (
        refl,
        (
          selected,
          refl,
          refl,
          subst (AllRead 0 m.parameters) (sym sorted)
              (extract_params-AllRead m.parameters 0 ps at_ps),
          async-future resolution m,
        ),
      )

complete_all_lem :
    (resolution : HashMap String) (selected : List (Method × String)) (infos : List MethodInfo)
    → All Selected selected
    → complete_all resolution selected ≡ value infos
    → (map (λ i. i.method) infos ≡ selected_methods selected) × All Describes infos
unfolding complete_all selected_methods
complete_all_lem resolution [] infos all h =
    let same : [] ≡ infos = ground arith in
    subst (λ l. (map (λ i. i.method) l ≡ []) × All Describes l) same (refl, tt)
complete_all_lem resolution ((m, action) ∷ selected) infos (first, all) h =
    let (i, at_i, h₁) = and_then-value _ (complete_info resolution (m, action)) infos h in
    let (rest, at_rest, h₂) =
      and_then-value (λ l. value (i ∷ l)) (complete_all resolution selected) infos h₁ in
    let (method, described) = complete_info-Describes resolution m action i first at_i in
    let (methods, others) = complete_all_lem resolution selected rest all at_rest in
    let same : i ∷ rest ≡ infos = ground arith in
    subst (λ l. (map (λ i. i.method) l ≡ m ∷ selected_methods selected) × All Describes l) same
      (ap₂ (λ x l. x ∷ l) method methods, (described, others))

-- If the methods of a class can be described, the descriptions are those of its public methods
-- that a HTTP method is named for, in their order, and each has the first HTTP method that is
-- named, the path of the method and its path parameters, its parameters in the order of their
-- declaration, each with the kind and the name of the first of its annotations in the order query,
-- path, header, cookie and body, or as the operation if it has none of them and this class; and is
-- asynchronous exactly if the method returns a CompletableFuture.
pub generate_method_info_lem :
    (actions : List String) (methods : List Method) (resolution : HashMap String)
    (infos : List MethodInfo)
    → generate_method_info actions methods resolution ≡ value infos
    → (map (λ i. i.method) infos ≡ keep is_exposed methods) × All Describes infos
unfolding generate_method_info
generate_method_info_lem actions methods resolution infos h =
    let (selected, at_selected, h₁) =
      and_then-value (complete_all resolution) (select_methods actions methods) infos h in
    let (chosen, all) = select_methods_lem actions methods selected at_selected in
    let (described, others) = complete_all_lem resolution selected infos all h₁ in
    (described ∙ chosen, others)
