-- ===== src/Api/ValidationLaws.antt =====
-- Which specifications validation.go accepts, said without its code.
use kubervisor.Prelude.{
  none, List, [], ◌∷◌, String, Outcome, ok, ◌≡◌, ◌≢◌, ◌↔◌, refl, arith, eq_iff, All, wrapping,
}
use kubervisor.Prelude.Dict
use kubervisor.Prelude.Dict.{Dict}
use kubervisor.Api.{FloatOps, BreakerStrategy, KubervisorServiceSpec}
use kubervisor.Api.BreakerLaws.{IsValidBreaker, breaker_sound, breaker_complete}
use kubervisor.Api.Validation.{
  validate_breakers, validate_kubervisor_service_spec, validate_activator_strategy,
}

module _ {F : Type 0} (floats : FloatOps F) (dns : String → List String) where
  -- No two breakers have one name.
  abbrev pub HasUniqueNames : List (BreakerStrategy F) → Type 0
  HasUniqueNames [] = Unit
  HasUniqueNames (b ∷ bs) = All (λ c. b.name ≢ c.name) bs × HasUniqueNames bs

  -- None of the names is in the set.
  abbrev AreNew : Dict (Unit {0}) → List (BreakerStrategy F) → Type 0
  AreNew names = All (λ b. Dict.get names b.name ≡ none)

  AreNew-put :
      (names : Dict (Unit {0})) (k : String) (bs : List (BreakerStrategy F))
      → AreNew (Dict.put names k tt) bs
      → AreNew names bs × All (λ c. k ≢ c.name) bs
  AreNew-put names k [] h = (tt, tt)
  AreNew-put names k (b ∷ bs) h =
      let (a, c) = AreNew-put names k bs h.1 in
      (
        (ground (arith, Dict.get-put names k tt b.name, h.0), a),
        (ground (arith, Dict.get-put names k tt b.name, h.0, eq_iff k b.name), c),
      )

  AreNew-put_of :
      (names : Dict (Unit {0})) (k : String) (bs : List (BreakerStrategy F))
      → AreNew names bs
      → All (λ c. k ≢ c.name) bs
      → AreNew (Dict.put names k tt) bs
  AreNew-put_of names k [] h e = tt
  AreNew-put_of names k (b ∷ bs) h e = (
    ground (arith, Dict.get-put names k tt b.name, h.0, e.0, eq_iff k b.name),
    AreNew-put_of names k bs h.1 e.1,
  )

  wrapping_ok : (text : String) (r : Outcome (Unit {0})) → wrapping text r ≡ ok tt → r ≡ ok tt
  wrapping_ok text r h = ground arith

  breakers_sound :
      (names : Dict (Unit {0})) (bs : List (BreakerStrategy F))
      → validate_breakers floats dns names bs ≡ ok tt
      → All (IsValidBreaker floats dns) bs × HasUniqueNames bs × AreNew names bs
  unfolding validate_breakers
  breakers_sound names [] h = (tt, tt, tt)
  breakers_sound names (b ∷ bs) h =
      let (valid, unique, fresh) = breakers_sound (Dict.put names b.name tt) bs (ground arith) in
      let (kept, others) = AreNew-put names b.name bs fresh in
      ((breaker_sound floats dns b (ground arith), valid), (others, unique), (ground arith, kept))

  breakers_complete :
      (names : Dict (Unit {0})) (bs : List (BreakerStrategy F))
      → All (IsValidBreaker floats dns) bs
      → HasUniqueNames bs
      → AreNew names bs
      → validate_breakers floats dns names bs ≡ ok tt
  unfolding validate_breakers
  breakers_complete names [] v u n = refl
  breakers_complete names (b ∷ bs) v u n =
      rw (breaker_complete floats dns b v.0, n.0)
        (breakers_complete (Dict.put names b.name tt) bs v.1 u.1
          (AreNew-put_of names b.name bs n.1 u.0))

  pub record IsValidSpec (s : KubervisorServiceSpec F) : Type 0 where
    pub good_service : dns s.service ≡ []
    pub some_breaker : s.breakers ≢ []
    pub valid_breakers : All (IsValidBreaker floats dns) s.breakers
    pub unique_names : HasUniqueNames s.breakers

  AreNew-nil : (bs : List (BreakerStrategy F)) → AreNew [] bs
  unfolding Dict.get
  AreNew-nil [] = tt
  AreNew-nil (b ∷ bs) = (refl, AreNew-nil bs)

  spec_sound :
      (s : KubervisorServiceSpec F)
      → validate_kubervisor_service_spec floats dns s ≡ ok tt
      → IsValidSpec s
  unfolding validate_kubervisor_service_spec
  spec_sound s h =
      let (valid, unique, fresh) = breakers_sound [] s.breakers (ground arith) in
      record {
        good_service = ground arith;
        some_breaker = ground arith;
        valid_breakers = valid;
        unique_names = unique;
      }

  spec_complete :
      (s : KubervisorServiceSpec F)
      → IsValidSpec s
      → validate_kubervisor_service_spec floats dns s ≡ ok tt
  unfolding validate_kubervisor_service_spec validate_activator_strategy
  spec_complete s v = ground (
    arith,
    v.good_service,
    v.some_breaker,
    breakers_complete [] s.breakers v.valid_breakers v.unique_names (AreNew-nil s.breakers),
  )

  -- The validation accepts a specification exactly if the name of its service has no fault, it has
  -- a breaker, no two breakers share a name, and each breaker has a good name, exactly one analysis
  -- with a valid configuration, and an evaluation period in range, if any.
  pub validate_iff :
      (s : KubervisorServiceSpec F)
      → (validate_kubervisor_service_spec floats dns s ≡ ok tt) ↔ IsValidSpec s
  validate_iff s = (spec_sound s, spec_complete s)
