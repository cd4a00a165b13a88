-- ===== src/Controller/ConditionLaws.antt =====
-- What a new condition leaves of the conditions of a resource.
use Prim.Native.Nat.{max}
use kubervisor.Prelude.{
  ℕ, ◌+◌, ◌≡◌, refl, arith, true, ◌||◌, List, [], ◌∷◌, ◌++◌, String, All, count, ltb, Bool-cases,
  inl, inr, ◌∙◌, All-append, if◌then◌else◌,
}
use kubervisor.Prelude.Int.{ℤ}
use kubervisor.Api.{
  KubervisorServiceConditionType, condition_true, condition_false, KubervisorServiceCondition,
  KubervisorServiceStatus,
}
use kubervisor.Controller.Conditions.{
  same_kind, new_status_condition, updated_condition, update_conditions, has_kind, set_condition,
}

-- How many conditions of a kind there are.
abbrev pub kinds : KubervisorServiceConditionType → List KubervisorServiceCondition → ℕ
kinds k conditions = count (λ c. same_kind c.kind k) conditions

-- Conditions that were all probed at one time, and of which those of one kind, which is there, are
-- true, and all others are false.
pub record IsSettled (kind : KubervisorServiceConditionType) (time : ℤ)
    (conditions : List KubervisorServiceCondition) : Type 0 where
  pub probed : All (λ c. c.last_probe_time ≡ time) conditions
  pub decided :
      All
        (λ c. c.status ≡ (if same_kind c.kind kind then condition_true else condition_false))
        conditions
  pub present : has_kind kind conditions ≡ true

module _ (kind : KubervisorServiceConditionType) (time : ℤ) where
  abbrev settled : List KubervisorServiceCondition → List KubervisorServiceCondition
  settled conditions =
      update_conditions kind time (λ old. updated_condition old condition_true time) conditions

  abbrev Probed : List KubervisorServiceCondition → Type 0
  Probed conditions = All (λ c. c.last_probe_time ≡ time) conditions

  abbrev Decided : List KubervisorServiceCondition → Type 0
  Decided conditions =
      All (λ c. c.status ≡ (if same_kind c.kind kind then condition_true else condition_false))
        conditions

  settled-Probed : (conditions : List KubervisorServiceCondition) → Probed (settled conditions)
  unfolding update_conditions
  settled-Probed [] = tt
  settled-Probed (c ∷ conditions) = (ground arith, settled-Probed conditions)

  settled-Decided : (conditions : List KubervisorServiceCondition) → Decided (settled conditions)
  unfolding update_conditions
  settled-Decided [] = tt
  settled-Decided (c ∷ conditions) = (ground arith, settled-Decided conditions)

  has_kind-settled :
      (conditions : List KubervisorServiceCondition)
      → has_kind kind (settled conditions) ≡ has_kind kind conditions
  unfolding update_conditions has_kind
  has_kind-settled [] = refl
  has_kind-settled (c ∷ conditions) = ground (arith, has_kind-settled conditions)

  kinds-settled :
      (k : KubervisorServiceConditionType) (conditions : List KubervisorServiceCondition)
      → kinds k (settled conditions) ≡ kinds k conditions
  unfolding update_conditions
  kinds-settled k [] = refl
  kinds-settled k (c ∷ conditions) = ground (arith, kinds-settled k conditions)

has_kind-kinds :
    (k : KubervisorServiceConditionType) (conditions : List KubervisorServiceCondition)
    → has_kind k conditions ≡ ltb 0 (kinds k conditions)
unfolding has_kind
has_kind-kinds k [] = refl
has_kind-kinds k (c ∷ conditions) = ground (arith, has_kind-kinds k conditions)

has_kind-append :
    (k : KubervisorServiceConditionType) (conditions : List KubervisorServiceCondition)
    (c : KubervisorServiceCondition)
    → has_kind k (conditions ++ (c ∷ [])) ≡ (has_kind k conditions || same_kind c.kind k)
unfolding has_kind
has_kind-append k [] c = ground arith
has_kind-append k (x ∷ conditions) c = ground (arith, has_kind-append k conditions c)

kinds-append :
    (k : KubervisorServiceConditionType) (conditions : List KubervisorServiceCondition)
    (c : KubervisorServiceCondition)
    → kinds k (conditions ++ (c ∷ [])) ≡ kinds k conditions + (if same_kind c.kind k then 1 else 0)
kinds-append k [] c = ground arith
kinds-append k (x ∷ conditions) c = ground (arith, kinds-append k conditions c)

kinds_same :
    (k j : KubervisorServiceConditionType) (conditions : List KubervisorServiceCondition)
    → same_kind k j ≡ true
    → kinds k conditions ≡ kinds j conditions
kinds_same k j [] e = refl
kinds_same k j (c ∷ conditions) e = ground (arith, kinds_same k j conditions e)

module _ (kind : KubervisorServiceConditionType) (reason : String)
    (status : KubervisorServiceStatus) (msg : String) (time : ℤ) where
  -- After a condition was set, all conditions were probed at the time of the call, those of its kind
  -- are true and all others false, and one of its kind is there.
  pub set_condition-IsSettled :
      IsSettled kind time (set_condition kind reason status msg time).conditions
  unfolding set_condition
  set_condition-IsSettled = elim (Bool-cases (has_kind kind status.conditions)) [
    | inl e ↦ simp e (record {
      probed = settled-Probed kind time status.conditions;
      decided = settled-Decided kind time status.conditions;
      present = has_kind-settled kind time status.conditions ∙ e;
    })
    | inr e ↦ simp e (record {
      probed =
          All-append _ (settled kind time status.conditions)
            (settled-Probed kind time status.conditions) refl;
      decided =
          All-append _ (settled kind time status.conditions)
            (settled-Decided kind time status.conditions) (ground arith);
      present = rw (has_kind-append kind (settled kind time status.conditions) _) (ground arith);
    })
  ]

  -- Setting a condition adds one of its kind if there was none, and else leaves the number of
  -- conditions of every kind: so no kind ever comes to stand twice.
  kinds-set_condition :
      (k : KubervisorServiceConditionType)
      → kinds k (set_condition kind reason status msg time).conditions ≡ (
          if same_kind kind k then max 1 (kinds k status.conditions) else kinds k status.conditions)
  unfolding set_condition
  kinds-set_condition k = elim (Bool-cases (has_kind kind status.conditions)) [
    | inl e ↦ simp e (
        ground (
          arith,
          kinds-settled kind time k status.conditions,
          kinds_same kind k status.conditions,
          e,
          has_kind-kinds kind status.conditions,
        ))
    | inr e ↦ simp e (
        ground (
          arith,
          kinds-settled kind time k status.conditions,
          kinds_same kind k status.conditions,
          kinds-append k (settled kind time status.conditions)
              (new_status_condition kind condition_true msg reason time),
          e,
          has_kind-kinds kind status.conditions,
        ))
  ]
