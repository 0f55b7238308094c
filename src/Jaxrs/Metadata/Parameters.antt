-- ===== src/Jaxrs/Metadata/Parameters.antt =====
-- How the declared parameters of a method are read.
use xenon_ext.Prelude.{
  ℕ, suc, ◌≡◌, refl, subst, ap, ◌∙◌, Option, none, some, List, [], ◌∷◌, ◌++◌, get_elem?,
  if◌then◌else◌, map, String, str_eq, arith, str_eq,
}
use xenon_ext.Effect.{Attempt, value, raise}
use xenon_ext.Jaxrs.Metadata.{
  path, query, body, operation, header, cookie, operation_class, ParamType, Parameter,
  ParamMetadata, and_then, metadata, unnamed_param, extract_param, extract_params, insert_param,
  sort_params,
}

abbrev pub indices : List ParamMetadata → List ℕ
indices ps = map (λ p. p.parameter_index) ps

-- The numbers from the first argument on.
abbrev pub count_from : {A : Type 0} → ℕ → List A → List ℕ
count_from i [] = []
count_from i (a ∷ as_) = i ∷ count_from (suc i) as_

pub and_then-value :
    {A B : Type 0} (f : A → Attempt B) (r : Attempt A) (b : B)
    → and_then f r ≡ value b
    → (a : A) × (r ≡ value a) × (f a ≡ value b)
and_then-value f (value a) b h = (a, refl, h)
and_then-value f (raise e) b h = ground arith

extract_param-index :
    (p : Parameter) (i : ℕ) (m : ParamMetadata)
    → extract_param p i ≡ value m
    → m.parameter_index ≡ i
unfolding extract_param unnamed_param metadata
extract_param-index p i m h = ground arith

-- What an annotation says of a parameter: its kind, its name and its class.
abbrev Mark : Type 0
Mark = ParamType × Option String × Option String

abbrev named_mark : ParamType → Option String → List Mark
named_mark kind none = []
named_mark kind (some name) = (kind, some name, none) ∷ []

-- All that the annotations and the class of a parameter say of it, the strongest first.
abbrev pub marks : Parameter → List Mark
marks p =
    named_mark query p.query_param
    ++ (named_mark path p.path_param
        ++ (named_mark header p.header_param
            ++ (named_mark cookie p.cookie_param
                ++ ((if p.operation_body then (body, none, some p.type_name) ∷ [] else [])
                    ++ (if str_eq p.type_name operation_class
                        then (operation, none, none) ∷ []
                        else [])))))

-- A parameter as it stands with an index among the declared ones.
abbrev pub Reads : ℕ → Parameter → ParamMetadata → Type 0
Reads i p m =
    (m.parameter_index ≡ i) × (get_elem? (marks p) 0 ≡ some (m.type_, m.name, m.paramter_type))

-- The declared parameters are read one by one, from an index on.
abbrev pub AllRead : ℕ → List Parameter → List ParamMetadata → Type 0
AllRead i [] [] = Unit
AllRead i (p ∷ ps) (m ∷ ms) = Reads i p m × AllRead (suc i) ps ms
AllRead i _ _ = ⊥

extract_param-Reads :
    (p : Parameter) (i : ℕ) (m : ParamMetadata) → extract_param p i ≡ value m → Reads i p m
unfolding extract_param unnamed_param metadata
extract_param-Reads p i m h = (extract_param-index p i m h, ground arith)

pub extract_params-AllRead :
    (ps : List Parameter) (i : ℕ) (ms : List ParamMetadata)
    → extract_params ps i ≡ value ms
    → AllRead i ps ms
unfolding extract_params
extract_params-AllRead [] i ms h = let same : [] ≡ ms = ground arith in subst (AllRead i []) same tt
extract_params-AllRead (p ∷ ps) i ms h =
    let (m, at_m, h₁) = and_then-value _ (extract_param p i) ms h in
    let (rest, at_rest, h₂) =
      and_then-value (λ r. value (m ∷ r)) (extract_params ps (suc i)) ms h₁ in
    let same : m ∷ rest ≡ ms = ground arith in
    subst (AllRead i (p ∷ ps)) same
      (extract_param-Reads p i m at_m, extract_params-AllRead ps (suc i) rest at_rest)

pub extract_params-indices :
    (ps : List Parameter) (i : ℕ) (ms : List ParamMetadata)
    → extract_params ps i ≡ value ms
    → indices ms ≡ count_from i ps
unfolding extract_params
extract_params-indices [] i ms h = ground arith
extract_params-indices (p ∷ ps) i ms h =
    let (m, at_m, h₁) = and_then-value _ (extract_param p i) ms h in
    let (rest, at_rest, h₂) =
      and_then-value (λ r. value (m ∷ r)) (extract_params ps (suc i)) ms h₁ in
    let first = extract_param-index p i m at_m in
    let others = extract_params-indices ps (suc i) rest at_rest in ground (arith, first, others)

insert_param-first :
    (p : ParamMetadata) (ps : List ParamMetadata) {A : Type 0} (as_ : List A) (i : ℕ)
    → p.parameter_index ≡ i
    → indices ps ≡ count_from (suc i) as_
    → insert_param p ps ≡ p ∷ ps
unfolding insert_param
insert_param-first p [] as_ i e h = refl
insert_param-first p (q ∷ qs) [] i e h = ground arith
insert_param-first p (q ∷ qs) (a ∷ as_) i e h = ground arith

-- The parameters are in order before they are sorted.
pub sort_params-indices :
    (ps : List ParamMetadata) {A : Type 0} (as_ : List A) (i : ℕ)
    → indices ps ≡ count_from i as_
    → sort_params ps ≡ ps
unfolding sort_params
sort_params-indices [] as_ i h = refl
sort_params-indices (p ∷ ps) [] i h = ground arith
sort_params-indices (p ∷ ps) (a ∷ as_) i h =
    ap (insert_param p) (sort_params-indices ps as_ (suc i) (ground arith))
    ∙ insert_param-first p ps as_ i (ground arith) (ground arith)
