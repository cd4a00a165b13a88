-- ===== src/Examples/Registrations.antt =====
-- The theorem about the definition of the resource at a concrete server.
use kubervisor.Prelude.{
  ◌≡◌, arith, Bool, true, false, List, [], ◌∷◌, String, Outcome, ok, err, panic, errorf, not_found,
}
use kubervisor.Kube.Exec.{Exec}
use kubervisor.Registration.{
  established, crd_true, names_accepted, crd_false, Crd, Polling, CrdApi, definition, check,
  is_established, define_kubervisor_resources,
}
use kubervisor.Registration.Laws.{IsPolling, Ending, define-Ending}

-- A definition as the server reports it.
abbrev accepted : Crd
accepted = record definition {
  conditions =
      (record { kind = names_accepted; status = crd_false })
      ∷ (record { kind = established; status = crd_true })
      ∷ [];
}

abbrev stored : String → Exec (List Crd) Crd
stored name [] = (err not_found, [])
stored name (crd ∷ crds) = (ok crd, crd ∷ crds)

-- What polling once makes of the answer.
abbrev polled : Outcome Bool × Polling (List Crd) → Outcome (Unit {0}) × Polling (List Crd)
polled (ok true, w) = (ok tt, w)
polled (ok false, w) = (err (errorf "timed out"), w)
polled (err e, w) = (err e, w)
polled (panic, w) = (panic, w)

polled-true :
    (p : Outcome Bool × Polling (List Crd)) (w : Polling (List Crd)) (u : Unit {0})
    → polled p ≡ (ok u, w)
    → p ≡ (ok true, w)
polled-true (ok true, v) w u h = λ i. (ok true, (h i).1)
polled-true (ok false, v) w u h = absurd (ground (arith, h))
polled-true (err e, v) w u h = absurd (ground (arith, h))
polled-true (panic, v) w u h = absurd (ground (arith, h))

-- A server that establishes whatever it is sent.
abbrev server : CrdApi (List Crd)
server = record {
  create = λ crd crds. (ok crd, accepted ∷ crds);
  get = stored;
  delete = λ name crds. (ok tt, []);
  poll = λ f w. polled (f w);
  new_aggregate = λ e f. e;
  is_already_exists = λ e. false;
}

server-IsPolling : IsPolling server
server-IsPolling w w' u h = (w, polled-true (check server w) w' u h)

define-Ending_example : Ending server [] (ok accepted) (accepted ∷ [])
unfolding define_kubervisor_resources is_established
define-Ending_example = define-Ending server server-IsPolling []
