-- ===== src/Api/DefaultLaws.antt =====
-- What the defaults of default.go achieve.
use kubervisor.Prelude.{
  Bool, true, none, some, List, [], ◌∷◌, map, ◌≡◌, refl, arith, inl, inr, Bool-cases, str_eq,
}
use kubervisor.Api.{FloatOps, ActivatorStrategy, BreakerStrategy, KubervisorService}
use kubervisor.Api.Defaults.{
  is_activator_strategy_defaulted, is_breaker_strategy_defaulted, all_breakers,
  is_kubervisor_service_defaulted, default_activator_strategy, default_breaker_strategy,
  default_kubervisor_service, is_discrete_value_out_of_list_defaulted,
  is_continuous_value_deviation_defaulted,
}

-- What the program's test asks of a breaker's own activator, which no default fills in.
abbrev pub has_whole_activator : {F : Type 0} → BreakerStrategy F → Bool
has_whole_activator b = elim b.continuous_value_deviation [
  | some c ↦ true
  | none ↦ elim b.activator [ none ↦ true | some a ↦ is_activator_strategy_defaulted a ]
]

module _ {F : Type 0} (floats : FloatOps F) where
  default-activator_defaulted :
      (a : ActivatorStrategy F)
      → is_activator_strategy_defaulted (default_activator_strategy floats a) ≡ true
  unfolding is_activator_strategy_defaulted default_activator_strategy
  default-activator_defaulted a = elim (Bool-cases (str_eq a.mode "")) [
    | inl e ↦ simp e (ground arith)
    | inr e ↦ simp e (ground arith)
  ]

  default-breaker_defaulted :
      (b : BreakerStrategy F)
      → is_breaker_strategy_defaulted (default_breaker_strategy floats b) ≡ has_whole_activator b
  unfolding is_breaker_strategy_defaulted default_breaker_strategy
      is_discrete_value_out_of_list_defaulted is_continuous_value_deviation_defaulted
  default-breaker_defaulted b = ground arith

  all_breakers-default :
      (bs : List (BreakerStrategy F))
      → all_breakers is_breaker_strategy_defaulted (map (default_breaker_strategy floats) bs)
        ≡ all_breakers has_whole_activator bs
  unfolding all_breakers
  all_breakers-default [] = refl
  all_breakers-default (b ∷ bs) = rw (default-breaker_defaulted b, all_breakers-default bs)

  -- The defaulted resource passes the test for defaults exactly if each breaker either uses the
  -- continuous analysis, or has no activator of its own, or has one that was complete before.
  pub default-defaulted_iff :
      (s : KubervisorService F)
      → is_kubervisor_service_defaulted (default_kubervisor_service floats s)
        ≡ all_breakers has_whole_activator s.spec.breakers
  unfolding is_kubervisor_service_defaulted default_kubervisor_service
  default-defaulted_iff s =
      rw (default-activator_defaulted s.spec.default_activator)
        (all_breakers-default s.spec.breakers)

  default-activator_idem :
      (a : ActivatorStrategy F)
      → default_activator_strategy floats (default_activator_strategy floats a)
        ≡ default_activator_strategy floats a
  unfolding default_activator_strategy
  default-activator_idem a = elim (Bool-cases (str_eq a.mode "")) [
    | inl e ↦ simp e (ground arith)
    | inr e ↦ simp e (ground arith)
  ]

  default-breaker_idem :
      (b : BreakerStrategy F)
      → default_breaker_strategy floats (default_breaker_strategy floats b)
        ≡ default_breaker_strategy floats b
  unfolding default_breaker_strategy
  default-breaker_idem b = ground arith

  map-default_idem :
      (bs : List (BreakerStrategy F))
      → map (default_breaker_strategy floats) (map (default_breaker_strategy floats) bs)
        ≡ map (default_breaker_strategy floats) bs
  map-default_idem [] = refl
  map-default_idem (b ∷ bs) = cc (default-breaker_idem b, map-default_idem bs)

  -- Defaulting twice is defaulting once.
  default_idem :
      (s : KubervisorService F)
      → default_kubervisor_service floats (default_kubervisor_service floats s)
        ≡ default_kubervisor_service floats s
  unfolding default_kubervisor_service
  default_idem s =
      rw (default-activator_idem s.spec.default_activator, map-default_idem s.spec.breakers)
