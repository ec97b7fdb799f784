-- ===== src/Publisher/Delivery/Attempts.antt =====
-- cpp/include/tp_publisher.hpp: on a link, the handler does what connect does.
use t2s.Base.{
  Bool, true, false, Option, none, some, List, [], ◌∷◌, if◌then◌else◌, not, ◌≡◌, refl, sym, if_both,
  if_true, if_false, arith,
}
use mathlib.Core.Path.{subst}
use t2s.Publisher.{Publisher, Attempt, register, concluded, connect}
use t2s.Publisher.Delivery.{Link, Contact, attempt_of, broken, settled, reconnect}

-- What connect sees of the contacts.
unfoldable pub attempts_of : {R : Type 0} → List Contact → Link R → List Attempt
attempts_of [] l = []
attempts_of (c ∷ contacts) l =
    attempt_of c l ∷ attempts_of contacts (if c.opened then broken c l else l)

-- The handler's state and the success agree.
pub Agrees : {R : Type 0} → Link R × Bool → Publisher R × Bool → Type 0
Agrees r s = (r.0.handler ≡ s.0) × (r.1 ≡ s.1)

module _ {R : Type 0} where
  settled-concluded :
      (ended : Option Bool) (c : Contact) (l : Link R) (p : Publisher R)
      → p ≡ (register (attempt_of c l) l.handler).0
      → (retried : Link R × Bool) (retried' : Publisher R × Bool) → Agrees retried retried'
      → Agrees (settled ended c l retried) (concluded (p, ended) retried')
  unfolding settled concluded Agrees
  settled-concluded none c l p same retried retried' h = (rw same refl, refl)
  settled-concluded (some true) c l p same retried retried' h = (rw same refl, refl)
  settled-concluded (some false) c l p same retried retried' h = h

  -- On a link, whatever the network does, the handler ends as connect leaves it on what it sees of
  -- the contacts, with the same result.
  pub reconnect-connect :
      (contacts : List Contact) (l : Link R)
      → Agrees (reconnect contacts l) (connect (attempts_of contacts l) l.handler)
  unfolding reconnect connect attempts_of attempt_of Agrees
  reconnect-connect [] l = (refl, refl)
  reconnect-connect (c ∷ contacts) l =
      let p = (register (attempt_of c l) l.handler).0 in
      let rest = connect (attempts_of contacts (if c.opened then broken c l else l)) in
      if_both Agrees (not l.handler.running) (l, false)
        (if not c.opened
          then reconnect contacts l
          else settled (register (attempt_of c l) l.handler).1 c l
              (reconnect contacts (broken c l)))
        (l.handler, false)
        (if not c.opened
          then rest l.handler
          else concluded (register (attempt_of c l) l.handler) (rest p))
        (λ e. (refl, refl))
        (λ e.
          if_both Agrees (not c.opened) (reconnect contacts l)
            (settled (register (attempt_of c l) l.handler).1 c l (reconnect contacts (broken c l)))
            (rest l.handler) (concluded (register (attempt_of c l) l.handler) (rest p))
            (λ f.
              subst
                (λ m. Agrees (reconnect contacts l) (connect (attempts_of contacts m) l.handler))
                (sym (if_false c.opened (broken c l) l (ground arith)))
                (reconnect-connect contacts l))
            (λ f.
              settled-concluded (register (attempt_of c l) l.handler).1 c l p refl
                (reconnect contacts (broken c l)) (rest p)
                (subst
                  (λ m.
                    Agrees (reconnect contacts (broken c l)) (connect (attempts_of contacts m) p))
                  (sym (if_true c.opened (broken c l) l (ground arith)))
                  (reconnect-connect contacts (broken c l)))))
