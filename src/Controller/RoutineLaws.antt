-- ===== src/Controller/RoutineLaws.antt =====
-- When Stop of an item returns, and what still runs then.
use kubervisor.Prelude.{
  ℕ, ◌+◌, ◌≤◌, ◌≡◌, refl, sym, ap, ◌∙◌, arith, Bool, true, false, List, [], ◌∷◌, ◌++◌, count, ◌⊎◌,
  inl, inr, if◌then◌else◌,
}
use kubervisor.Controller.Item.{BreakerActivatorPair, KubervisorServiceItem}
use kubervisor.Controller.Routines.{
  Phase, spawned, waiting, in_round, StopPhase, not_called, draining, returned, Routines,
  start_routines, spawn_pairs, Becomes, Step, enter, tick, finish, leave, cancel, return, Reach,
  here, next, is_active, is_spawned, active, pending,
}

unfoldable pub weight : (Phase → Bool) → Phase → ℕ
weight f p = if f p then 1 else 0

pub count-middle :
    (f : Phase → Bool) (xs ys : List Phase) (p : Phase)
    → count f (xs ++ (p ∷ ys)) ≡ count f (xs ++ ys) + weight f p
unfolding weight
count-middle f [] ys p = ground arith
count-middle f (x ∷ xs) ys p = ground (arith, count-middle f xs ys p)

-- The count after a move.
Becomes-count :
    (f : Phase → Bool) {p q : Phase} {s t : Routines}
    → Becomes p q s t
    → count f t.phases + weight f p ≡ count f s.phases + weight f q
Becomes-count f {p} {q} {s} {t} b =
    rw (b.from, b.to)
      (omega (arith, count-middle f b.before b.after p, count-middle f b.before b.after q))

-- The wait group counts the goroutines that run.
Step-counted : (s t : Routines) → Step s t → active s ≡ s.wait_count → active t ≡ t.wait_count
unfolding weight
Step-counted s t (enter b w k) h = omega (arith, Becomes-count is_active b, w, h)
Step-counted s t (tick b w k) h = omega (arith, Becomes-count is_active b, w, h)
Step-counted s t (finish b w k) h = omega (arith, Becomes-count is_active b, w, h)
Step-counted s t (leave c b w k) h = omega (arith, Becomes-count is_active b, w, h)
Step-counted s t (cancel e e' p w) h = ap (count is_active) p ∙ h ∙ sym w
Step-counted s t (return e z e' p w) h = ap (count is_active) p ∙ h ∙ sym w

pub Reach-counted : (s t : Routines) → Reach s t → active s ≡ s.wait_count → active t ≡ t.wait_count
Reach-counted s t here h = h
Reach-counted s t (next {t = u} r x) h = Step-counted u t x (Reach-counted s u r h)

is_returned : StopPhase → Bool
is_returned not_called = false
is_returned draining = false
is_returned returned = true

-- Every goroutine entered, and if Stop returned, all of them left.
record IsOrderly (s : Routines) : Type 0 where
  entered : pending s ≡ 0
  counted : active s ≡ s.wait_count
  ended : (is_returned s.stop ≡ false) ⊎ (active s ≡ 0)

same_stop :
    (s t : Routines)
    → t.stop ≡ s.stop
    → active t ≡ active s
    → (is_returned s.stop ≡ false) ⊎ (active s ≡ 0)
    → (is_returned t.stop ≡ false) ⊎ (active t ≡ 0)
same_stop s t k e (inl h) = inl (ap is_returned k ∙ h)
same_stop s t k e (inr h) = inr (e ∙ h)

Step-IsOrderly : (s t : Routines) → Step s t → IsOrderly s → IsOrderly t
unfolding weight is_returned
Step-IsOrderly s t (enter b w k) h = absurd (omega (arith, Becomes-count is_spawned b, h.entered))
Step-IsOrderly s t (tick b w k) h = record {
  entered = omega (arith, Becomes-count is_spawned b, h.entered);
  counted = Step-counted s t (tick b w k) h.counted;
  ended = same_stop s t k (omega (arith, Becomes-count is_active b)) h.ended;
}
Step-IsOrderly s t (finish b w k) h = record {
  entered = omega (arith, Becomes-count is_spawned b, h.entered);
  counted = Step-counted s t (finish b w k) h.counted;
  ended = same_stop s t k (omega (arith, Becomes-count is_active b)) h.ended;
}
Step-IsOrderly s t (leave c b w k) h = record {
  entered = omega (arith, Becomes-count is_spawned b, h.entered);
  counted = Step-counted s t (leave c b w k) h.counted;
  ended = elim h.ended [
    | inl e ↦ inl (ap is_returned k ∙ e)
    | inr e ↦ absurd (omega (arith, Becomes-count is_active b, e))
  ];
}
Step-IsOrderly s t (cancel e e' p w) h = record {
  entered = ap (count is_spawned) p ∙ h.entered;
  counted = Step-counted s t (cancel e e' p w) h.counted;
  ended = inl (ap is_returned e');
}
Step-IsOrderly s t (return e z e' p w) h = record {
  entered = ap (count is_spawned) p ∙ h.entered;
  counted = Step-counted s t (return e z e' p w) h.counted;
  ended = inr (ap (count is_active) p ∙ h.counted ∙ z);
}

Reach-IsOrderly : (s t : Routines) → Reach s t → IsOrderly s → IsOrderly t
Reach-IsOrderly s t here h = h
Reach-IsOrderly s t (next {t = u} r x) h = Step-IsOrderly u t x (Reach-IsOrderly s u r h)

spawn_pairs-idle :
    {F L D : Type 0} (pairs : List (BreakerActivatorPair F L D))
    → count is_active (spawn_pairs pairs) ≡ 0
unfolding spawn_pairs
spawn_pairs-idle [] = refl
spawn_pairs-idle (p ∷ pairs) = ground (arith, spawn_pairs-idle pairs)

module _ {F L D : Type 0} (item : KubervisorServiceItem F L D) where
  pub start-counted : active (start_routines item) ≡ (start_routines item).wait_count
  unfolding start_routines
  start-counted = spawn_pairs-idle item.breakers

  -- If Stop is called when every goroutine of the item has entered the wait group, then none of them
  -- runs any more from the moment when it returns.
  pub stop_waits :
      (s t : Routines)
      → Reach (start_routines item) s
      → pending s ≡ 0
      → s.stop ≡ not_called
      → Reach s t
      → t.stop ≡ returned
      → active t ≡ 0
  unfolding is_returned
  stop_waits s t before entered uncalled after done =
      let orderly = Reach-IsOrderly s t after (record {
        entered = entered;
        counted = Reach-counted (start_routines item) s before start-counted;
        ended = inl (ap is_returned uncalled);
      }) in
      elim orderly.ended [
        | inl e ↦ absurd (ground (arith, sym (ap is_returned done) ∙ e))
        | inr e ↦ e
      ]

  -- A goroutine adds itself to the wait group only when it first runs: so from every start there is a
  -- schedule in which Stop returns, and a goroutine runs a round afterwards.
  pub stop_races :
      (t : Routines) × Reach (start_routines item) t × (t.stop ≡ returned) × (1 ≤ active t)
  unfolding start_routines
  stop_races =
      let rest = spawn_pairs item.breakers in
      let s₀ : Routines = record { phases = spawned ∷ rest; wait_count = 0; stop = not_called } in
      let s₁ : Routines = record s₀ { stop = draining } in
      let s₂ : Routines = record s₀ { stop = returned } in
      let s₃ : Routines = record { phases = waiting ∷ rest; wait_count = 1; stop = returned } in
      let s₄ : Routines = record s₃ { phases = in_round ∷ rest } in
      let enters : Becomes spawned waiting s₂ s₃ = record {
        before = [];
        after = rest;
        from = refl;
        to = refl;
      } in
      let ticks : Becomes waiting in_round s₃ s₄ = record {
        before = [];
        after = rest;
        from = refl;
        to = refl;
      } in
      let r₁ : Reach s₀ s₁ = next here (cancel refl refl refl refl) in
      let r₂ : Reach s₀ s₂ = next r₁ (return refl refl refl refl refl) in
      let r₃ : Reach s₀ s₃ = next r₂ (enter enters refl refl) in
      (s₄, next r₃ (tick ticks refl refl), refl, omega arith)
