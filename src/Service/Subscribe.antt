-- ===== src/Service/Subscribe.antt =====
-- src/Service.cpp: `SubscribeDevices` and `SubscribeFanStatus`, what is written to the client of one
-- subscription.
use mathlib.Core.List.{append_assoc, append-nil}
use fancon.Common.{
  ◌≡◌, ◌∙◌, ap, sym, refl, Bool, true, false, not, List, [], ◌∷◌, ◌++◌, if◌then◌else◌,
}

-- What happens during a subscription: the observers are called, or the client cancels.
pub data During (D : Type 0) : Type 0 where
  notified : D → During D
  cancels : During D

module _ {D : Type 0} where
  -- `cb`: a client that has cancelled is written nothing.
  unfoldable pub write_to : Bool → D → List D → List D
  write_to cancelled d written = if not cancelled then written ++ (d ∷ []) else written

  -- The initial state, one message for each device.
  unfoldable pub initial : Bool → List D → List D → List D
  unfolding write_to
  initial cancelled [] written = written
  initial cancelled (d ∷ ds) written = initial cancelled ds (write_to cancelled d written)

  -- The wait, during which `cb` may be called.
  unfoldable pub wait : Bool → List (During D) → List D → List D
  unfolding write_to
  wait cancelled [] written = written
  wait cancelled (notified d ∷ es) written = wait cancelled es (write_to cancelled d written)
  wait cancelled (cancels ∷ es) written = wait true es written

  -- What happens before the registration: no observer is there yet, so nothing is written; the client
  -- may cancel.
  unfoldable pub unobserved : Bool → List (During D) → Bool
  unobserved cancelled [] = cancelled
  unobserved cancelled (notified d ∷ es) = unobserved cancelled es
  unobserved cancelled (cancels ∷ es) = unobserved true es

  -- The initial state, what happens until the observer is registered, and what happens from then on.
  -- The calls of the observer stand in the order in which they write.
  unfoldable pub subscribe : List D → List (During D) → List (During D) → List D
  unfolding initial unobserved wait
  subscribe state between es = wait (unobserved false between) es (initial false state [])

  -- The notifications before the client cancels.
  abbrev pub before_cancel : List (During D) → List D
  before_cancel [] = []
  before_cancel (notified d ∷ es) = d ∷ before_cancel es
  before_cancel (cancels ∷ es) = []

  initial-append : (ds written : List D) → initial false ds written ≡ written ++ ds
  unfolding initial
  initial-append [] written = sym (append-nil written)
  initial-append (d ∷ ds) written =
      initial-append ds (written ++ (d ∷ [])) ∙ append_assoc written (d ∷ []) ds

  wait-cancelled : (es : List (During D)) (written : List D) → wait true es written ≡ written
  unfolding wait
  wait-cancelled [] written = refl
  wait-cancelled (notified d ∷ es) written = wait-cancelled es written
  wait-cancelled (cancels ∷ es) written = wait-cancelled es written

  wait-append :
      (es : List (During D)) (written : List D)
      → wait false es written ≡ written ++ before_cancel es
  unfolding wait
  wait-append [] written = sym (append-nil written)
  wait-append (notified d ∷ es) written =
      wait-append es (written ++ (d ∷ [])) ∙ append_assoc written (d ∷ []) (before_cancel es)
  wait-append (cancels ∷ es) written = wait-cancelled es written ∙ sym (append-nil written)

  -- A subscription writes the state that it finds, and after it each notification from its registration
  -- up to where the client cancels, once. Notifications between the two are lost.
  pub subscribe-before_cancel :
      (state : List D) (between es : List (During D))
      → subscribe state between es
        ≡ state ++ (if unobserved false between then [] else before_cancel es)
  unfolding subscribe
  subscribe-before_cancel state between es = by_cancel (unobserved false between)
    where
      by_cancel :
          (b : Bool)
          → wait b es (initial false state []) ≡ state ++ (if b then [] else before_cancel es)
      by_cancel false =
          wait-append es (initial false state [])
          ∙ ap (λ written. written ++ before_cancel es) (initial-append state [])
      by_cancel true =
          wait-cancelled es (initial false state [])
          ∙ initial-append state []
          ∙ sym (append-nil state)
