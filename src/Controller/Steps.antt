-- ===== src/Controller/Steps.antt =====
-- The steps of an item: made, stored, started, stopped and removed.
use kubervisor.Prelude.{
  Option, str_eq, if◌then◌else◌, ◌≢◌, ℕ, ◌≡◌, refl, sym, subst, ◌∙◌, arith, eq_iff, Bool, true,
  false, none, String, Outcome, ok, err, panic,
}
use kubervisor.Prelude.Int.{ℤ}
use kubervisor.Kube.Exec.{Exec, ◌>>=◌}
use kubervisor.Kube.Ensures.{Ensures, Ensures-pure, Ensures-lift, Ensures-wrap, Ensures-bind}
use kubervisor.Api.{KubervisorService}
use kubervisor.Controller.Item.{KubervisorServiceItem}
use kubervisor.Controller.Store.{
  Handle, Ctrl, key_of, set_runs, get_key, start_item, stop_item, allocate,
}
use kubervisor.Controller.Env.{Service, Env}
use kubervisor.Controller.Reconcile.{
  update_resource_status, delete_item, register_item, with_item, create_item,
}
use kubervisor.Controller.StoreRules.{
  View, send-Ensures, Ensures-add_items, Ensures-delete_gauge, Ensures-on_store,
}
use kubervisor.Controller.Tracking.{
  StoreLaws, Accounted, Accounted-next, Accounted-same, Accounted-remove, Accounted-insert,
}
use kubervisor.Controller.Phases.{
  key-new_kubervisor_service_item, resource_key, Kept, Free, Held, Fresh, Ready, Stopped,
}

module _ {F L R S St D : Type 0} (env : Env F L R S St D) (laws : StoreLaws env.store key_of)
    (Leaked : ℕ → Type 0) (before : St) (own : String) where
  Fresh-Kept :
      (bci : Handle F L D) (t : St) (runs : ℕ → Bool) (n : ℕ)
      → Fresh env Leaked before own bci t runs n
      → Kept env Leaked before own t runs n
  unfolding Fresh
  Fresh-Kept bci t runs n (kept, next, same, free) = record {
    tracked =
        subst (Accounted Leaked env.store t runs) (sym next)
          (Accounted-next Leaked env.store t runs bci.id kept.tracked);
    untouched = kept.untouched;
  }

  -- A write under the key of the resource leaves the other keys alone.
  written_elsewhere :
      (bci : Handle F L D) (t t' : St) (r : Outcome (Option (Handle F L D)))
      → key_of bci ≡ own
      → ((k : String)
          → env.store.get_by_key k t'
            ≡ (if str_eq (key_of bci) k then r else env.store.get_by_key k t))
      → ((k : String) → own ≢ k → env.store.get_by_key k t ≡ env.store.get_by_key k before)
      → (k : String) → own ≢ k
      → env.store.get_by_key k t' ≡ env.store.get_by_key k before
  written_elsewhere bci t t' r same law untouched k other =
      ground (arith, law k, untouched k other, eq_iff (key_of bci) k, same)

  Fresh-Ready :
      (bci : Handle F L D) (t : St) (runs : ℕ → Bool) (n : ℕ)
      → Fresh env Leaked before own bci t runs n
      → Ready env Leaked before own bci (env.store.update bci t).1 runs n
  unfolding Fresh Ready
  Fresh-Ready bci t runs n (kept, next, same, free) = (
    record {
      tracked =
          subst (Accounted Leaked env.store (env.store.update bci t).1 (set_runs bci.id true runs))
            (sym next)
            (Accounted-insert Leaked env.store t runs bci.id kept.tracked bci
              (env.store.update bci t).1 refl
              (subst (λ k. env.store.get_by_key k t ≡ ok none) (sym same) free)
              (laws.get-update bci t));
      untouched = written_elsewhere bci t _ _ same (laws.get-update bci t) kept.untouched;
    },
    same,
    ground (arith, laws.get-update bci t own, eq_iff (key_of bci) own),
  )

  Held-Stopped :
      (bci : Handle F L D) (t : St) (runs : ℕ → Bool) (n : ℕ)
      → Held env Leaked before own bci t runs n
      → Stopped env Leaked before own bci t (set_runs bci.id false runs) n
  unfolding Held Stopped Free
  Held-Stopped bci t runs n (kept, held) =
      let same = kept.tracked.keyed own bci held in
      (
        record {
          tracked = Accounted-remove Leaked env.store t runs n kept.tracked laws own bci held;
          untouched = written_elsewhere bci t _ _ same (laws.get-delete bci t) kept.untouched;
        },
        ground (arith, laws.get-delete bci t own, eq_iff (key_of bci) own),
      )

  pub Free-Kept :
      (t : St) (runs : ℕ → Bool) (n : ℕ)
      → Free env Leaked before own t runs n
      → Kept env Leaked before own t runs n
  unfolding Free
  Free-Kept t runs n f = f.0

  -- A write to the store that gives what it had.
  pub Ready-add :
      (bci : Handle F L D) (t : St) (runs : ℕ → Bool) (n : ℕ)
      → Ready env Leaked before own bci t runs n
      → Ready env Leaked before own bci (env.store.add bci t).1 runs n
  unfolding Ready
  Ready-add bci t runs n (kept, key, stored) =
      let same : (k : String)
          → env.store.get_by_key k (env.store.add bci t).1 ≡ env.store.get_by_key k t =
        λ k. ground (arith, laws.get-add bci t k, eq_iff (key_of bci) k, key, stored) in
      (
        record {
          tracked =
              Accounted-same Leaked env.store t (set_runs bci.id true runs) n kept.tracked
                (env.store.add bci t).1 same;
          untouched = λ k other. same k ∙ kept.untouched k other;
        },
        key,
        same own ∙ stored,
      )

module _ {F L R S St D : Type 0} (env : Env F L R S St D) (laws : StoreLaws env.store key_of)
    (Leaked : ℕ → Type 0) (before : St) (bc : KubervisorService F) where
  allocate-Ensures :
      (item : KubervisorServiceItem F L D)
      → get_key item.namespace item.name ≡ resource_key bc
      → Ensures
          (View {S = S} (Kept env Leaked before (resource_key bc)))
          (View (Free env Leaked before (resource_key bc)))
          (allocate item)
          (λ bci. View (Fresh env Leaked before (resource_key bc) bci))
  unfolding allocate Free Fresh key_of
  allocate-Ensures item e = record { at = λ c p. (p.0, refl, e, p.1) }

  register_item-Ensures :
      (now : ℤ) (item : KubervisorServiceItem F L D)
      → get_key item.namespace item.name ≡ resource_key bc
      → Ensures
          (View (Kept env Leaked before (resource_key bc)))
          (View (Free env Leaked before (resource_key bc)))
          (register_item env bc now item)
          (λ made. View (Ready env Leaked before (resource_key bc) made.1))
  unfolding register_item update_resource_status
  register_item-Ensures now item same =
      Ensures-bind (λ bci. View (Fresh env Leaked before (resource_key bc) bci)) _ _
        (allocate-Ensures item same)
        (λ bci.
          Ensures-bind (λ _. View (Fresh env Leaked before (resource_key bc) bci)) _ _
            (Ensures-wrap _ _ (
              send-Ensures (Fresh env Leaked before (resource_key bc) bci)
                (Kept env Leaked before (resource_key bc)) _ _
                (Fresh-Kept env laws Leaked before (resource_key bc) bci)))
            (λ updated.
              Ensures-bind (λ _. View (Fresh env Leaked before (resource_key bc) bci)) _ _
                (Ensures-add_items (Fresh env Leaked before (resource_key bc) bci) _ _)
                (λ _.
                  Ensures-bind (λ _. View (Ready env Leaked before (resource_key bc) bci)) _ _
                    (Ensures-wrap _ _ (
                      Ensures-on_store (Fresh env Leaked before (resource_key bc) bci) _
                        (Ready env Leaked before (resource_key bc) bci) (laws.update_ok bci)
                        (Fresh-Ready env laws Leaked before (resource_key bc) bci)))
                    (λ _. Ensures-pure _ (λ c p. p)))))

  with_item-Ensures :
      (now : ℤ) (r : Outcome (KubervisorServiceItem F L D))
      → ((item : KubervisorServiceItem F L D)
          → r ≡ ok item
          → get_key item.namespace item.name ≡ resource_key bc)
      → Ensures
          (View (Kept env Leaked before (resource_key bc)))
          (View (Free env Leaked before (resource_key bc)))
          (with_item env bc now r)
          (λ made. View (Ready env Leaked before (resource_key bc) made.1))
  unfolding with_item update_resource_status
  with_item-Ensures now (ok item) same = register_item-Ensures now item (same item refl)
  with_item-Ensures now (err e) same =
      Ensures-bind (λ _. View (Free env Leaked before (resource_key bc))) _ _
        (Ensures-wrap _ _ (
          send-Ensures (Free env Leaked before (resource_key bc))
            (Kept env Leaked before (resource_key bc)) _ _
            (Free-Kept env laws Leaked before (resource_key bc))))
        (λ _.
          Ensures-lift _ (λ c p. Free-Kept env laws Leaked before (resource_key bc) _ _ _ p)
            (λ a e'. absurd (ground arith)))
  with_item-Ensures now panic same =
      Ensures-lift _ (λ c p. Free-Kept env laws Leaked before (resource_key bc) _ _ _ p)
        (λ a e'. absurd (ground arith))

  pub create_item-Ensures :
      (svc : Service) (now : ℤ)
      → Ensures
          (View (Kept env Leaked before (resource_key bc)))
          (View (Free env Leaked before (resource_key bc)))
          (create_item env bc svc now)
          (λ made. View (Ready env Leaked before (resource_key bc) made.1))
  unfolding create_item
  create_item-Ensures svc now = with_item-Ensures now _ (key-new_kubervisor_service_item env bc svc)

  pub start_item-Ensures :
      (bci : Handle F L D) (Q : St → (ℕ → Bool) → ℕ → Type 0)
      → ((t : St) (runs : ℕ → Bool) (n : ℕ)
          → Ready env Leaked before (resource_key bc) bci t runs n
          → Q t (set_runs bci.id true runs) n)
      → Ensures
          (View {S = S} (Kept env Leaked before (resource_key bc)))
          (View (Ready env Leaked before (resource_key bc) bci))
          (start_item bci)
          (λ _. View Q)
  unfolding start_item
  start_item-Ensures bci Q h = record { at = λ c p. h c.items c.runs c.created p }

  stop_item-Ensures :
      (E : Ctrl S St → Type 0) (bci : Handle F L D)
      → Ensures E
          (View (Held env Leaked before (resource_key bc) bci))
          (stop_item bci)
          (λ _. View (Stopped env Leaked before (resource_key bc) bci))
  unfolding stop_item
  stop_item-Ensures E bci = record {
    at = λ c p. Held-Stopped env laws Leaked before (resource_key bc) bci _ _ _ p;
  }

  -- Stop and deleteItem.
  pub remove-Ensures :
      (A : Type 0) (E : Ctrl S St → Type 0) (bci : Handle F L D) (next : Exec (Ctrl S St) A)
      (Q : A → Ctrl S St → Type 0)
      → Ensures E (View (Free env Leaked before (resource_key bc))) next Q
      → Ensures E
          (View (Held env Leaked before (resource_key bc) bci))
          (stop_item bci >>= λ _. delete_item env bci >>= λ _. next)
          Q
  unfolding delete_item Stopped
  remove-Ensures A E bci next Q h =
      Ensures-bind (λ _. View (Stopped env Leaked before (resource_key bc) bci)) _ _
        (stop_item-Ensures E bci)
        (λ _.
          Ensures-bind (λ _. View (Free env Leaked before (resource_key bc))) _ _
            (Ensures-bind (λ _. View (Stopped env Leaked before (resource_key bc) bci)) _ _
              (Ensures-add_items (Stopped env Leaked before (resource_key bc) bci) _ _)
              (λ _.
                Ensures-bind (λ _. View (Stopped env Leaked before (resource_key bc) bci)) _ _
                  (Ensures-delete_gauge (Stopped env Leaked before (resource_key bc) bci) _ _)
                  (λ _.
                    Ensures-on_store (Stopped env Leaked before (resource_key bc) bci) _
                      (Free env Leaked before (resource_key bc)) (laws.delete_ok bci)
                      (λ t runs n p. p))))
            (λ _. h))
