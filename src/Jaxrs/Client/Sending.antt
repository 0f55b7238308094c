-- ===== src/Jaxrs/Client/Sending.antt =====
-- InterceptorChain.java, and how ProxyHandler.java sends an operation and returns what comes back.
use xenon_ext.Prelude.{
  ◌≡◌, refl, sym, ◌∙◌, Bool, Option, none, some, List, [], ◌∷◌, ◌++◌, String, if◌then◌else◌,
}
use xenon_ext.Jaxrs.Metadata.{JavaType, MethodInfo}
use xenon_ext.Jaxrs.Routing.{Tried, got, threw, Settled, result, exception, wrapper}

abbrev pub try_then : {E : Type 0} {A B : Type 0} → (A → Tried E B) → Tried E A → Tried E B
try_then f (got a) = f a
try_then f (threw e) = threw e

try_then-cong :
    {E : Type 0} {A B : Type 0} (f g : A → Tried E B) (r : Tried E A)
    → ((a : A) → f a ≡ g a)
    → try_then f r ≡ try_then g r
try_then-cong f g (got a) same = same a
try_then-cong f g (threw e) same = refl

try_then_assoc :
    {E : Type 0} {A B C : Type 0} (f : A → Tried E B) (g : B → Tried E C) (r : Tried E A)
    → try_then g (try_then f r) ≡ try_then (λ a. try_then g (f a)) r
try_then_assoc f g (got a) = refl
try_then_assoc f g (threw e) = refl

-- OperationInterceptor.java; the second argument and the result of `after` are an operation and a
-- failure, or null.
pub record Interceptor (O E : Type 0) : Type 0 where
  pub before : O → Tried E O
  pub after : O → O × Option E → Tried E (O × Option E)

module _ {O E : Type 0} where
  unfoldable pub before_all : List (Interceptor O E) → O → Tried E O
  before_all [] op = got op
  before_all (i ∷ is) op = try_then (before_all is) (i.before op)

  unfoldable pub after_all : List (Interceptor O E) → O → O × Option E → Tried E (O × Option E)
  after_all [] op completed = got completed
  after_all (i ∷ is) op completed = try_then (after_all is op) (i.after op completed)

  -- `new InterceptorChain(interceptors)`.
  unfoldable pub chain : List (Interceptor O E) → Interceptor O E
  unfolding before_all after_all
  chain interceptors = record { before = before_all interceptors; after = after_all interceptors }

  before_all-append :
      (xs ys : List (Interceptor O E)) (op : O)
      → before_all (xs ++ ys) op ≡ try_then (before_all ys) (before_all xs op)
  unfolding before_all
  before_all-append [] ys op = refl
  before_all-append (x ∷ xs) ys op =
      try_then-cong (before_all (xs ++ ys)) (λ o. try_then (before_all ys) (before_all xs o))
        (x.before op) (before_all-append xs ys)
      ∙ sym (try_then_assoc (before_all xs) (before_all ys) (x.before op))

  after_all-append :
      (xs ys : List (Interceptor O E)) (op : O) (c : O × Option E)
      → after_all (xs ++ ys) op c ≡ try_then (after_all ys op) (after_all xs op c)
  unfolding after_all
  after_all-append [] ys op c = refl
  after_all-append (x ∷ xs) ys op c =
      try_then-cong (after_all (xs ++ ys) op) (λ d. try_then (after_all ys op) (after_all xs op d))
        (x.after op c) (after_all-append xs ys op)
      ∙ sym (try_then_assoc (after_all xs op) (after_all ys op) (x.after op c))

  -- A chain that stands among the interceptors of a chain does, before and after an operation, what
  -- its interceptors do in its place.
  pub chain-nested :
      (xs ys zs : List (Interceptor O E)) (op : O) (c : O × Option E)
      → ((chain (xs ++ chain ys ∷ zs)).before op ≡ (chain (xs ++ (ys ++ zs))).before op)
        × ((chain (xs ++ chain ys ∷ zs)).after op c ≡ (chain (xs ++ (ys ++ zs))).after op c)
  unfolding chain
  chain-nested xs ys zs op c = (
    before_all-append xs (chain ys ∷ zs) op
        ∙ try_then-cong (before_all (chain ys ∷ zs)) (before_all (ys ++ zs)) (before_all xs op)
            (λ o. sym (before_all-append ys zs o))
        ∙ sym (before_all-append xs (ys ++ zs) op),
    after_all-append xs (chain ys ∷ zs) op c
        ∙ try_then-cong (after_all (chain ys ∷ zs) op) (after_all (ys ++ zs) op) (after_all xs op c)
            (λ d. sym (after_all-append ys zs op d))
        ∙ sym (after_all-append xs (ys ++ zs) op c),
  )

-- What the class of a return type is to the code.
pub data ReturnKind : Type 0 where
  void list set_ map_ other : ReturnKind

-- What the proxy returns.
pub data Reply (R : Type 0) : Type 0 where
  void_type empty_list empty_set empty_map null : Reply R
  decoded : R → Reply R

unfoldable pub without_body : {R : Type 0} → ReturnKind → Reply R
without_body list = empty_list
without_body set_ = empty_set
without_body map_ = empty_map
without_body _ = null

-- What a call of a method of the proxy returns or throws; the last is the ExecutionException that
-- `get` throws, by its cause.
pub data Called (R E : Type 0) : Type 0 where
  returned : Reply R → Called R E
  returned_future : Settled (Reply R) E → Called R E
  thrown : E → Called R E
  execution_exception : Option E → Called R E

-- `thenApply`, whose future wraps the exception of the one that it depends on, unless it is a
-- wrapper; that an ExecutionException would be wrapped again is left out.
unfoldable pub then_apply : {E A B : Type 0} → (A → Tried E B) → Settled A E → Settled B E
then_apply f (result a) = elim (f a) [ got b ↦ result b | threw e ↦ wrapper (some e) ]
then_apply f (exception e) = wrapper (some e)
then_apply f (wrapper cause) = wrapper cause

-- `get`, which blocks until the future is settled.
unfoldable pub get_settled : {R E : Type 0} → Settled (Reply R) E → Called R E
get_settled (result r) = returned r
get_settled (exception e) = execution_exception (some e)
get_settled (wrapper cause) = execution_exception cause

-- `error_handler` settles the future of a failed operation, `decode` is the response decoder, which
-- reads the type and the return type of the method, and `send` gives the completed operation and
-- its failure.
module _ {O E R : Type 0} (kind_of : String → ReturnKind) (has_body : O → Bool)
    (decode : O → JavaType → String → Tried E R) (error_handler : O × E → Settled O E)
    (interceptor : Interceptor O E) (send : O → O × Option E) where
  unfoldable pub reply_of : ReturnKind → MethodInfo → O → Tried E (Reply R)
  unfolding without_body
  reply_of void info op = got void_type
  reply_of kind info op =
      if has_body op
      then try_then (λ r. got (decoded r)) (decode op info.type_ info.return_type)
      else got (without_body kind)

  unfoldable pub get_valid_return_value : MethodInfo → O → Tried E (Reply R)
  unfolding reply_of
  get_valid_return_value info op = reply_of (kind_of info.return_type) info op

  -- The completion of the operation, by what the interceptor has made of it.
  unfoldable pub complete_future : Tried E (O × Option E) → Settled O E
  complete_future (threw e) = exception e
  complete_future (got (op, none)) = result op
  complete_future (got (op, some e)) = error_handler (op, e)

  unfoldable pub execute_op : MethodInfo → O → Settled (Reply R) E
  unfolding then_apply get_valid_return_value complete_future
  execute_op info op =
      then_apply (get_valid_return_value info) (complete_future (interceptor.after op (send op)))

  unfoldable pub send_intercepted : MethodInfo → Tried E O → Called R E
  unfolding execute_op get_settled
  send_intercepted info (threw e) = thrown e
  send_intercepted info (got op) =
      let future = execute_op info op in
      if info.async_api then returned_future future else get_settled future

  -- `invoke` of a method that is not a default method; `built` is the operation of the operation
  -- builder.
  unfoldable pub invoke : MethodInfo → Tried E O → Called R E
  unfolding send_intercepted
  invoke info (threw e) = thrown e
  invoke info (got op) = send_intercepted info (interceptor.before op)
