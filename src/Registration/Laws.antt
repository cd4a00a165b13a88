-- ===== src/Registration/Laws.antt =====
-- How the definition of the resource ends: which call to the server was the last.
use kubervisor.Prelude.{
  ◌≡◌, refl, sym, ◌∙◌, ok-injective, arith, true, Outcome, ok, err, panic, Error,
}
use kubervisor.Registration.{
  Crd, CrdApi, Polling, cluster_resource_name, definition, is_established, checked, check,
  after_delete, after_poll, after_create, define_kubervisor_resources,
}

-- wait.Poll returns no error only after the function that it polls returned true.
abbrev pub IsPolling : {S : Type 0} → CrdApi S → Type 0
IsPolling {S} api =
    (w w' : Polling S) (u : Unit {0})
    → api.poll (check api) w ≡ (ok u, w')
    → (v : Polling S) × (check api v ≡ (ok true, w'))

module _ {S : Type 0} (api : CrdApi S) where
  -- The creation succeeds.
  abbrev pub Creates : S → Type 0
  Creates s = (created : Crd) × (s1 : S) × (api.create definition s ≡ (ok created, s1))

  -- What was returned, and which call left the server so.
  pub data Ending (s : S) : Outcome Crd → S → Type 0 where
    refused : (e : Error) (s' : S) → api.create definition s ≡ (err e, s') → Ending s (err e) s'
    defined :
        (crd : Crd) (before s' : S)
        → Creates s
        → api.get cluster_resource_name before ≡ (ok crd, s')
        → is_established crd.conditions ≡ true
        → Ending s (ok crd) s'
    withdrawn :
        (e : Error) (before s' : S)
        → Creates s
        → api.delete cluster_resource_name before ≡ (ok tt, s')
        → Ending s (err e) s'
    left :
        (e delete_err : Error) (before s' : S)
        → Creates s
        → api.delete cluster_resource_name before ≡ (err delete_err, s')
        → Ending s (err (api.new_aggregate e delete_err)) s'
    panicked : (s' : S) → Ending s panic s'

  checked-true :
      (v w : Polling S) (p : Outcome Crd × S)
      → checked api v p ≡ (ok true, w)
      → (p ≡ (ok w.crd, w.cluster)) × (is_established w.crd.conditions ≡ true)
  unfolding checked
  checked-true v w (ok crd, s) h = (
    λ i. (ok (h i).1.crd, (h i).1.cluster),
    sym (λ i. is_established (h i).1.crd.conditions) ∙ ok-injective (λ i. (h i).0),
  )
  checked-true v w (err e, s) h = absurd (ground (arith, h))
  checked-true v w (panic, s) h = absurd (ground (arith, h))

  after_delete-Ending :
      (s : S) (made : Creates s) (e : Error) (before : S) (p : Outcome (Unit {0}) × S)
      → api.delete cluster_resource_name before ≡ p
      → (let (r, s') = after_delete api e p in Ending s r s')
  unfolding after_delete
  after_delete-Ending s made e before (ok u, s') h = withdrawn e before s' made h
  after_delete-Ending s made e before (err delete_err, s') h = left e delete_err before s' made h
  after_delete-Ending s made e before (panic, s') h = panicked s'

  module _ (polls : IsPolling api) where
    after_poll-Ending :
        (s : S) (made : Creates s) (before : Polling S) (p : Outcome (Unit {0}) × Polling S)
        → api.poll (check api) before ≡ p
        → (let (r, s') = after_poll api p in Ending s r s')
    unfolding after_poll check
    after_poll-Ending s made before (ok u, w) h =
        let (v, last) = polls before w u h in
        let (got, is) = checked-true v w (api.get cluster_resource_name v.cluster) last in
        defined w.crd v.cluster w.cluster made got is
    after_poll-Ending s made before (err e, w) h = after_delete-Ending s made e w.cluster _ refl
    after_poll-Ending s made before (panic, w) h = panicked w.cluster

    after_create-Ending :
        (s : S) (p : Outcome Crd × S)
        → api.create definition s ≡ p
        → (let (r, s') = after_create api p in Ending s r s')
    unfolding after_create
    after_create-Ending s (ok created, s') h = after_poll-Ending s (created, s', h) _ _ refl
    after_create-Ending s (err e, s') h = refused e s' h
    after_create-Ending s (panic, s') h = panicked s'

    -- If polling succeeds only where the polled function returned true, then the definition of the
    -- resource ends in one of these ways, and never in another: the creation failed, and no other call
    -- was made; or the creation succeeded, and either the last call read, under the name of the
    -- resource, a definition that is established, which is returned, or the last call deleted the
    -- definition, and an error is returned, with the one of the deletion if that failed; or the code
    -- panicked.
    pub define-Ending : (s : S) → (let (r, s') = define_kubervisor_resources api s in Ending s r s')
    unfolding define_kubervisor_resources
    define-Ending s = after_create-Ending s (api.create definition s) refl
