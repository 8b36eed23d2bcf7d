-- ===== src/Client/Callbacks.antt =====
-- What registered callables do to a dispatch (外置策略API/qmt_local_api/dispatcher.py).
use qmt_python_tcp.Prelude.{
  String, ◌≡◌, ◌≢◌, ◌↔◌, inl, inr, refl, sym, ap, ◌∙◌, Bool, true, false, some, List, [], ◌∷◌, ◌++◌,
  ◌||◌, ◌=t=◌, is_empty, if◌then◌else◌, value_error, ok, arith, eq_refl, All, Bool-cases, lookup,
  put, lookup-put_self,
}
use qmt_python_tcp.Client.Broker.{Message}
use qmt_python_tcp.Client.Dispatcher.{
  Handler, acknowledgeable, Dispatcher, handlers_of, is_in, register, without, unregister, failures,
  dispatch_to, dispatch_now,
}
use qmt_python_tcp.Client.Flight.{if-ok}

raises_none :
    (raises : Handler → Bool) (hs : List Handler)
    → failures raises hs ≡ []
    → All (λ h. raises h ≡ false) hs
unfolding failures
raises_none raises [] e = tt
raises_none raises (h ∷ hs) e = elim (Bool-cases (raises h)) [
  | inl bad ↦ absurd (let e' : h.qualname ∷ failures raises hs ≡ [] = sym (rw bad) ∙ e in cc)
  | inr fine ↦ (fine, raises_none raises hs (sym (rw fine) ∙ e))
]

none_raises :
    (raises : Handler → Bool) (hs : List Handler)
    → All (λ h. raises h ≡ false) hs
    → failures raises hs ≡ []
unfolding failures
none_raises raises [] h = refl
none_raises raises (k ∷ hs) (fine, others) = rw fine (none_raises raises hs others)

is_nil-succeeded : (l : List String) → (elim l [ [] ↦ true | _ ↦ false ]) ≡ true → l ≡ []
is_nil-succeeded [] e = refl
is_nil-succeeded (x ∷ xs) e = absurd cc

dispatch_to-acknowledgeable :
    (raises : Handler → Bool) (hs : List Handler)
    → (acknowledgeable (dispatch_to raises hs) ≡ true)
      ↔ ((hs ≢ []) × All (λ h. raises h ≡ false) hs)
unfolding dispatch_to
dispatch_to-acknowledgeable raises [] =
    (λ e. absurd cc, λ (some_there, h). absurd (some_there refl))
dispatch_to-acknowledgeable raises (h ∷ hs) = (
  λ e. ((λ bad. cc), raises_none raises (h ∷ hs) (is_nil-succeeded (failures raises (h ∷ hs)) e)),
  λ (there, fine). rw (dispatch_to, none_raises raises (h ∷ hs) fine),
)

-- A dispatch permits the acknowledgement exactly if a handler is registered for the message's type
-- and none of those registered raises on it.
pub dispatch_now-acknowledgeable :
    (raises : Handler → Bool) (message : Message) (d : Dispatcher)
    → (acknowledgeable (dispatch_now raises message d) ≡ true) ↔ (
        (handlers_of message.msg_type d ≢ [])
        × All (λ h. raises h ≡ false) (handlers_of message.msg_type d))
unfolding dispatch_now
dispatch_now-acknowledgeable raises message d =
    dispatch_to-acknowledgeable raises (handlers_of message.msg_type d)

handlers_of-some :
    (msg_type : String) (d : Dispatcher) (hs : List Handler)
    → lookup msg_type d.handlers ≡ some hs
    → handlers_of msg_type d ≡ hs
unfolding handlers_of
handlers_of-some msg_type d hs e = rw (handlers_of, e)

unregister-handlers :
    (msg_type : String) (h : Handler) (d : Dispatcher)
    → handlers_of msg_type (unregister msg_type h d) ≡ without h (handlers_of msg_type d)
unfolding unregister
unregister-handlers msg_type h d =
    handlers_of-some msg_type (unregister msg_type h d) (without h (handlers_of msg_type d))
      (lookup-put_self msg_type (without h (handlers_of msg_type d)) d.handlers)

register-handlers :
    (msg_type : String) (h : Handler) (d d' : Dispatcher)
    → register msg_type h d ≡ ok d'
    → handlers_of msg_type d' ≡ (
        if is_in h (handlers_of msg_type d)
        then handlers_of msg_type d
        else handlers_of msg_type d ++ h ∷ [])
unfolding register
register-handlers msg_type h d d' e =
    let hs = handlers_of msg_type d in
    let next_hs = if is_in h hs then hs else hs ++ h ∷ [] in
    let put_there : record d { handlers = put msg_type next_hs d.handlers } ≡ d' =
      if-ok (is_empty msg_type) value_error _ d' e in
    ap (handlers_of msg_type) (sym put_there)
    ∙ handlers_of-some msg_type (record d { handlers = put msg_type next_hs d.handlers }) next_hs
        (lookup-put_self msg_type next_hs d.handlers)

is_in-append : (h : Handler) (xs ys : List Handler) → is_in h (xs ++ ys) ≡ is_in h xs || is_in h ys
is_in-append h [] ys = refl
is_in-append h (x ∷ xs) ys = ground (arith, is_in-append h xs ys)

without-keeps :
    (h k : Handler) (xs : List Handler)
    → (k.identity =t= h.identity) ≡ false
    → is_in k (without h (xs ++ k ∷ [])) ≡ true
unfolding without
without-keeps h k [] other = rw other (rw (eq_refl k.equality))
without-keeps h k (x ∷ xs) other =
    let rest = without-keeps h k xs other in
    elim (Bool-cases (x.identity =t= h.identity)) [
      | inl same ↦ rw same rest
      | inr kept ↦ rw kept (ground (arith, rest))
    ]

-- Where an equal callable that is another object is registered and removed again: the one that was
-- registered before it stays the only one, and stays.
pub equal_handler_stays :
    (msg_type : String) (h h' : Handler) (d d1 d2 : Dispatcher)
    → is_in h (handlers_of msg_type d) ≡ false
    → (h.equality =t= h'.equality) ≡ true
    → (h.identity =t= h'.identity) ≡ false
    → register msg_type h d ≡ ok d1
    → register msg_type h' d1 ≡ ok d2
    → (handlers_of msg_type d2 ≡ handlers_of msg_type d1)
      × (is_in h (handlers_of msg_type (unregister msg_type h' d2)) ≡ true)
equal_handler_stays msg_type h h' d d1 d2 fresh equal other e1 e2 =
    let hs = handlers_of msg_type d in
    let first : handlers_of msg_type d1 ≡ hs ++ h ∷ [] =
      register-handlers msg_type h d d1 e1 ∙ rw fresh in
    let there : is_in h' (handlers_of msg_type d1) ≡ true =
      rw (first, is_in-append h' hs (h ∷ []), equal) (ground arith) in
    let same : handlers_of msg_type d2 ≡ handlers_of msg_type d1 =
      register-handlers msg_type h' d1 d2 e2 ∙ rw there in
    (same, rw (unregister-handlers msg_type h' d2, same, first) (without-keeps h' h hs other))
