-- ===== src/Activate/RunLaws.antt =====
-- The loop of an activator does not panic.
use kubervisor.Prelude.{
  ℕ, zero, suc, ◌≡◌, refl, arith, true, false, List, [], ◌∷◌, String, Outcome, ok, err, panic,
}
use kubervisor.Prelude.Int.{ℤ}
use kubervisor.Kube.{Pod, KubeClient, TimeText, SelectorOps}
use kubervisor.Kube.Exec.{Exec}
use kubervisor.Kube.Returns.{panics, Returns, Returns-pure, Returns-bind}
use kubervisor.Labeling.{label_traffic_key}
use kubervisor.Pod.Control.{World}
use kubervisor.Api.{FloatOps}
use kubervisor.Api.Defaults.{is_activator_strategy_defaulted}
use kubervisor.Activate.Strategy.{ActivatorImpl, apply_activator_strategy}
use kubervisor.Activate.Round.{apply_all, apply_answer, apply_listed, round, run}
use kubervisor.Activate.Panics.{defaulted-Returns}

module _ {F L R S : Type 0} (floats : FloatOps F) (ops : SelectorOps L R) (client : KubeClient S)
    (clock : S → ℤ) (time : TimeText) (lister : L → Exec (World S) (List Pod))
    (b : ActivatorImpl F L)
    (update_returns : (q : Pod) (s : S) → panics (client.update q s).0 ≡ false)
    (list_returns : (l : L) (w : World S) → panics (lister l w).0 ≡ false)
    (requirement_returns : (k v : String) → panics (ops.requirement k v) ≡ false)
    (parse_returns : (s : String) → panics (time.parse s) ≡ false)
    (defaulted : is_activator_strategy_defaulted b.activator_strategy_config ≡ true) where
  apply_all-Returns :
      (pods : List Pod) → Returns (apply_all floats ops client clock time lister b pods)
  unfolding apply_all
  apply_all-Returns [] = record { at = λ w. refl }
  apply_all-Returns (p ∷ pods) = record {
    at = λ w.
        let applied =
          defaulted-Returns floats ops client clock time lister b update_returns list_returns
            requirement_returns parse_returns p defaulted in
        let m = apply_activator_strategy floats ops client clock time lister b p w in
        ground (arith, applied.at w, (apply_all-Returns pods).at m.1);
  }

  apply_answer-Returns :
      (r : Outcome (List Pod))
      → panics r ≡ false
      → Returns (apply_answer floats ops client clock time lister b r)
  unfolding apply_answer
  apply_answer-Returns (ok pods) h = record { at = λ w. (apply_all-Returns pods).at w }
  apply_answer-Returns (err e) h = record { at = λ w. (apply_all-Returns []).at w }
  apply_answer-Returns panic h = absurd (ground (arith, h))

  apply_listed-Returns :
      (r : Outcome R)
      → panics r ≡ false
      → Returns (apply_listed floats ops client clock time lister b r)
  unfolding apply_listed
  apply_listed-Returns (ok rq) h = record {
    at = λ w.
        let l = ops.add b.selector rq in
        (apply_answer-Returns (lister l w).0 (list_returns l w)).at (lister l w).1;
  }
  apply_listed-Returns (err e) h = record { at = λ w. refl }
  apply_listed-Returns panic h = absurd (ground (arith, h))

  round-Returns : Returns (round floats ops client clock time lister b)
  unfolding round
  round-Returns = apply_listed-Returns _ (requirement_returns label_traffic_key "no")

  -- An activator whose strategy passes the test for defaults never panics, in any number of ticks, as
  -- long as the API server, the lister, the requirements and the parser of times return.
  pub run-Returns : (ticks : ℕ) → Returns (run floats ops client clock time lister b ticks)
  unfolding run
  run-Returns zero = Returns-pure tt
  run-Returns (suc ticks) = Returns-bind _ _ round-Returns (λ _. run-Returns ticks)
