-- ===== src/Jaxrs/Client/Returned.antt =====
-- When a call of a method of the proxy of ProxyHandler.java returns a value.
use xenon_ext.Prelude.{
  ◌≡◌, ◌≢◌, ◌↔◌, refl, sym, subst, ap, ◌∙◌, Bool, true, false, Bool-cases, inl, inr, Option, none,
  some, String, arith, if◌then◌else◌,
}
use xenon_ext.Jaxrs.Metadata.{JavaType, MethodInfo}
use xenon_ext.Jaxrs.Routing.{Tried, got, threw, Settled, result, exception, wrapper}
use xenon_ext.Jaxrs.Client.Sending.{
  Interceptor, ReturnKind, void, list, set_, map_, other, Reply, void_type, empty_list, empty_set,
  empty_map, null, decoded, Called, returned, returned_future, thrown, execution_exception,
  without_body, then_apply, get_settled, reply_of, get_valid_return_value, complete_future,
  execute_op, send_intercepted, invoke, try_then,
}
use xenon_ext.Jaxrs.Client.Invoking.{default_error_handler}

-- What the caller has after it has waited for the future, if it was given one.
abbrev pub awaited : {R E : Type 0} → Called R E → Called R E
awaited (returned_future f) = get_settled f
awaited (returned r) = returned r
awaited (thrown e) = thrown e
awaited (execution_exception cause) = execution_exception cause

module _ {O E R : Type 0} (kind_of : String → ReturnKind) (has_body : O → Bool)
    (decode : O → JavaType → String → Tried E R) (interceptor : Interceptor O E)
    (send : O → O × Option E) where
  -- The value that a response stands for: nothing for a method without a return type, what its
  -- body is decoded to, or without a body an empty collection of the return type, or null.
  abbrev pub StandsFor : ReturnKind → MethodInfo → O → Reply R → Type 0
  StandsFor kind info op void_type = kind ≡ void
  StandsFor kind info op (decoded r) =
      (kind ≢ void) × (has_body op ≡ true) × (decode op info.type_ info.return_type ≡ got r)
  StandsFor kind info op empty_list = (kind ≡ list) × (has_body op ≡ false)
  StandsFor kind info op empty_set = (kind ≡ set_) × (has_body op ≡ false)
  StandsFor kind info op empty_map = (kind ≡ map_) × (has_body op ≡ false)
  StandsFor kind info op null = (kind ≡ other) × (has_body op ≡ false)

  got-injective : {A : Type 0} (a b : A) → ◌≡◌ {A = Tried E A} (got a) (got b) → a ≡ b
  got-injective a b h = ground arith

  decoded_body :
      (t : Tried E R) (r : Reply R)
      → try_then (λ v. got (decoded v)) t ≡ got r
      → (v : R) × (t ≡ got v) × (decoded v ≡ r)
  decoded_body (got v) r h = (v, refl, got-injective (decoded v) r h)
  decoded_body (threw e) r h = absurd (ground arith)

  -- The reply for a method with a return type.
  non_void-StandsFor :
      (kind : ReturnKind) (info : MethodInfo) (op : O) (r : Reply R)
      → kind ≢ void
      → (has_body op ≡ false → StandsFor kind info op (without_body kind))
      → (if has_body op
          then try_then (λ v. got (decoded v)) (decode op info.type_ info.return_type)
          else got (without_body kind))
        ≡ got r
      → StandsFor kind info op r
  non_void-StandsFor kind info op r away empty h = elim (Bool-cases (has_body op)) [
    | inl present ↦
        let (v, read, same) =
          decoded_body (decode op info.type_ info.return_type) r (ground arith) in
        subst (StandsFor kind info op) same (away, present, read)
    | inr absent ↦
        subst (StandsFor kind info op) (got-injective (without_body kind) r (ground arith))
          (empty absent)
  ]

  abbrev reply_to : ReturnKind → MethodInfo → O → Tried E (Reply R)
  reply_to = reply_of kind_of has_body decode default_error_handler interceptor send

  reply_of-StandsFor :
      (kind : ReturnKind) (info : MethodInfo) (op : O) (r : Reply R)
      → reply_to kind info op ≡ got r
      → StandsFor kind info op r
  unfolding reply_of without_body
  reply_of-StandsFor void info op r h =
      subst (StandsFor void info op) (got-injective void_type r h) refl
  reply_of-StandsFor list info op r h =
      non_void-StandsFor list info op r (λ e. ground arith) (λ b. (refl, b)) h
  reply_of-StandsFor set_ info op r h =
      non_void-StandsFor set_ info op r (λ e. ground arith) (λ b. (refl, b)) h
  reply_of-StandsFor map_ info op r h =
      non_void-StandsFor map_ info op r (λ e. ground arith) (λ b. (refl, b)) h
  reply_of-StandsFor other info op r h =
      non_void-StandsFor other info op r (λ e. ground arith) (λ b. (refl, b)) h

  StandsFor-reply_of :
      (kind : ReturnKind) (info : MethodInfo) (op : O) (r : Reply R)
      → StandsFor kind info op r
      → reply_to kind info op ≡ got r
  unfolding reply_of without_body
  StandsFor-reply_of kind info op void_type k = rw k refl
  StandsFor-reply_of kind info op empty_list (k, b) = rw (k, b) refl
  StandsFor-reply_of kind info op empty_set (k, b) = rw (k, b) refl
  StandsFor-reply_of kind info op empty_map (k, b) = rw (k, b) refl
  StandsFor-reply_of kind info op null (k, b) = rw (k, b) refl
  StandsFor-reply_of void info op (decoded v) (away, b, d) = absurd (away refl)
  StandsFor-reply_of list info op (decoded v) (away, b, d) = rw (b, d) refl
  StandsFor-reply_of set_ info op (decoded v) (away, b, d) = rw (b, d) refl
  StandsFor-reply_of map_ info op (decoded v) (away, b, d) = rw (b, d) refl
  StandsFor-reply_of other info op (decoded v) (away, b, d) = rw (b, d) refl

  abbrev completed : Tried E (O × Option E) → Settled O E
  completed = complete_future kind_of has_body decode default_error_handler interceptor send

  completed-result :
      (t : Tried E (O × Option E)) (op : O) → completed t ≡ result op → t ≡ got (op, none)
  unfolding complete_future default_error_handler
  completed-result (threw e) op h = absurd (ground arith)
  completed-result (got (o, none)) op h = ground arith
  completed-result (got (o, some e)) op h = absurd (ground arith)

  get_settled-result :
      (s : Settled (Reply R) E) (r : Reply R) → get_settled s ≡ returned r → s ≡ result r
  unfolding get_settled
  get_settled-result (result q) r h = ground arith
  get_settled-result (exception e) r h = absurd (ground arith)
  get_settled-result (wrapper cause) r h = absurd (ground arith)

  settled_got :
      (t : Tried E (Reply R)) (op : O) (r : Reply R)
      → then_apply (λ (o : O). t) (result op) ≡ result r
      → t ≡ got r
  unfolding then_apply
  settled_got (got q) op r h = ground arith
  settled_got (threw e) op r h = absurd (ground arith)

  then_apply-result :
      (read : O → Tried E (Reply R)) (s : Settled O E) (r : Reply R)
      → then_apply read s ≡ result r
      → (op : O) × (s ≡ result op) × (read op ≡ got r)
  unfolding then_apply
  then_apply-result read (result op) r h = (op, refl, settled_got (read op) op r h)
  then_apply-result read (exception e) r h = absurd (ground arith)
  then_apply-result read (wrapper cause) r h = absurd (ground arith)

  abbrev called : MethodInfo → Tried E O → Called R E
  called = invoke kind_of has_body decode default_error_handler interceptor send

  abbrev executed : MethodInfo → O → Settled (Reply R) E
  executed = execute_op kind_of has_body decode default_error_handler interceptor send

  awaited-get_settled : (f : Settled (Reply R) E) → awaited (get_settled f) ≡ get_settled f
  unfolding get_settled
  awaited-get_settled (result r) = refl
  awaited-get_settled (exception e) = refl
  awaited-get_settled (wrapper cause) = refl

  either_way :
      (async : Bool) (f : Settled (Reply R) E)
      → awaited (if async then returned_future f else get_settled f) ≡ get_settled f
  either_way true f = refl
  either_way false f = awaited-get_settled f

  -- An operation that has been prepared is executed and waited for, by the caller or by `get`.
  awaited-sent :
      (info : MethodInfo) (op : O)
      → awaited (
          send_intercepted kind_of has_body decode default_error_handler interceptor send info
            (got op))
        ≡ get_settled (executed info op)
  unfolding send_intercepted
  awaited-sent info op = either_way info.async_api (executed info op)

  -- What stands behind a value that is returned, from the operation that was made on.
  abbrev pub Behind : MethodInfo → Tried E O → Reply R → Type 0
  Behind info built r =
      (made : O) × (ready : O) × (done : O) × (built ≡ got made)
      × (interceptor.before made ≡ got ready)
      × (interceptor.after ready (send ready) ≡ got (done, none))
      × StandsFor (kind_of info.return_type) info done r

  executed-Behind :
      (info : MethodInfo) (ready : O) (r : Reply R)
      → get_settled (executed info ready) ≡ returned r
      → (done : O) × (interceptor.after ready (send ready) ≡ got (done, none))
        × StandsFor (kind_of info.return_type) info done r
  unfolding execute_op get_valid_return_value
  executed-Behind info ready r h =
      let (done, settled, read) =
        then_apply-result _ (completed (interceptor.after ready (send ready))) r
          (get_settled-result (executed info ready) r h) in
      (
        done,
        completed-result (interceptor.after ready (send ready)) done settled,
        reply_of-StandsFor (kind_of info.return_type) info done r read,
      )

  prepared-Behind :
      (info : MethodInfo) (made : O) (t : Tried E O) (r : Reply R)
      → interceptor.before made ≡ t
      → awaited
          (send_intercepted kind_of has_body decode default_error_handler interceptor send info t)
        ≡ returned r
      → Behind info (got made) r
  unfolding send_intercepted
  prepared-Behind info made (threw e) r at h = absurd (ground arith)
  prepared-Behind info made (got ready) r at h =
      let (done, completed_, stands) =
        executed-Behind info ready r (sym (awaited-sent info ready) ∙ h) in
      (made, ready, done, refl, at, completed_, stands)

  called-Behind :
      (info : MethodInfo) (built : Tried E O) (r : Reply R)
      → awaited (called info built) ≡ returned r
      → Behind info built r
  unfolding invoke
  called-Behind info (threw e) r h = absurd (ground arith)
  called-Behind info (got made) r h = prepared-Behind info made (interceptor.before made) r refl h

  executed_value :
      (info : MethodInfo) (ready done : O) (r : Reply R)
      → interceptor.after ready (send ready) ≡ got (done, none)
      → reply_to (kind_of info.return_type) info done ≡ got r
      → get_settled (executed info ready) ≡ returned r
  unfolding execute_op get_valid_return_value complete_future then_apply get_settled
  executed_value info ready done r at_done read =
      ap
        (λ (t : Tried E (O × Option E)). get_settled (
          then_apply
            (get_valid_return_value kind_of has_body decode default_error_handler interceptor send
              info)
            (completed t)))
        at_done
      ∙ ap (λ (t : Tried E (Reply R)). get_settled (then_apply (λ (o : O). t) (result done))) read

  -- A call of a method returns a value, at once or once its future is awaited, exactly if its
  -- operation has been built, the interceptor has let it pass before and has left no failure after
  -- it was sent, and the value is what the completed operation stands for: nothing for a method
  -- without a return type, what the body is decoded to, or without a body an empty collection or
  -- null; where the error handler is the default one.
  pub awaited_returned_iff :
      (info : MethodInfo) (built : Tried E O) (r : Reply R)
      → (awaited (called info built) ≡ returned r) ↔ Behind info built r
  unfolding invoke
  awaited_returned_iff info built r = (
    called-Behind info built r,
    λ h.
        let (made, ready, done, at_made, at_ready, at_done, stands) = h in
        let read = StandsFor-reply_of (kind_of info.return_type) info done r stands in
        rw (at_made, at_ready)
          (awaited-sent info ready ∙ executed_value info ready done r at_done read),
  )
