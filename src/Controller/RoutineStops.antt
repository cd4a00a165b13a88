-- ===== src/Controller/RoutineStops.antt =====
-- Stop of an item can always return.
use kubervisor.Prelude.{
  ℕ, zero, suc, ◌≡◌, refl, sym, ap, arith, true, List, [], ◌∷◌, ◌++◌, count, Bool-cases, inl, inr,
}
use kubervisor.Controller.Item.{KubervisorServiceItem}
use kubervisor.Controller.Routines.{
  Phase, spawned, waiting, in_round, left, draining, returned, Routines, is_cancelled,
  start_routines, Becomes, Step, finish, leave, return, Reach, here, next, is_active, active,
}
use kubervisor.Controller.RoutineLaws.{weight, count-middle, Reach-counted, start-counted}

-- A goroutine that runs stands somewhere among the others.
record Runs (phases : List Phase) : Type 0 where
  before : List Phase
  phase : Phase
  after : List Phase
  split : phases ≡ before ++ (phase ∷ after)
  is_on : is_active phase ≡ true

find_active : (phases : List Phase) (n : ℕ) → count is_active phases ≡ suc n → Runs phases
find_active [] n h = absurd (omega (arith, h))
find_active (p ∷ phases) n h = elim (Bool-cases (is_active p)) [
  | inl e ↦ record { before = []; phase = p; after = phases; split = refl; is_on = e }
  | inr e ↦
      let r = find_active phases n (ground (arith, h, e)) in
      record {
        before = p ∷ r.before;
        phase = r.phase;
        after = r.after;
        split = ap (λ x. p ∷ x) r.split;
        is_on = r.is_on;
      }
]

Reach-cons : (s t u : Routines) → Step s t → Reach t u → Reach s u
Reach-cons s t u x here = next here x
Reach-cons s t u x (next {t = v} r y) = next (Reach-cons s t v x r) y

-- There is a schedule in which Stop returns.
abbrev CanReturn : Routines → Type 0
CanReturn s = (t : Routines) × Reach s t × (t.stop ≡ returned)

leave_waiting :
    (s : Routines) (n : ℕ) (before after : List Phase)
    → s.phases ≡ before ++ (waiting ∷ after)
    → s.stop ≡ draining
    → s.wait_count ≡ suc n
    → CanReturn (record { phases = before ++ (left ∷ after); wait_count = n; stop = draining })
    → CanReturn s
leave_waiting s n before after e k w (t, r, done) =
    let u : Routines = record {
      phases = before ++ (left ∷ after);
      wait_count = n;
      stop = draining;
    } in
    let b : Becomes waiting left s u = record {
      before = before;
      after = after;
      from = e;
      to = refl;
    } in
    (t, Reach-cons s u t (leave (ap is_cancelled k) b (omega (arith, w)) (sym k)) r, done)

-- The goroutine that waits at a place leaves; the one in a round finishes it first.
leave_at :
    (s : Routines) (n : ℕ) (before after : List Phase) (p : Phase)
    → s.phases ≡ before ++ (p ∷ after)
    → is_active p ≡ true
    → s.stop ≡ draining
    → s.wait_count ≡ suc n
    → CanReturn (record { phases = before ++ (left ∷ after); wait_count = n; stop = draining })
    → CanReturn s
leave_at s n before after spawned e on k w h = absurd (ground (arith, on))
leave_at s n before after left e on k w h = absurd (ground (arith, on))
leave_at s n before after waiting e on k w h = leave_waiting s n before after e k w h
leave_at s n before after in_round e on k w h =
    let u : Routines = record {
      phases = before ++ (waiting ∷ after);
      wait_count = suc n;
      stop = draining;
    } in
    let b : Becomes in_round waiting s u = record {
      before = before;
      after = after;
      from = e;
      to = refl;
    } in
    let (t, r, done) = leave_waiting u n before after refl refl refl h in
    (t, Reach-cons s u t (finish b (sym w) (sym k)) r, done)

drain : (n : ℕ) (s : Routines) → active s ≡ n → s.wait_count ≡ n → s.stop ≡ draining → CanReturn s
unfolding weight
drain zero s a w k = (record s { stop = returned }, next here (return k w refl refl refl), refl)
drain (suc n) s a w k =
    let r = find_active s.phases n a in
    let counted = count-middle is_active r.before r.after r.phase in
    let u : Routines = record {
      phases = r.before ++ (left ∷ r.after);
      wait_count = n;
      stop = draining;
    } in
    let here_count = ap (count is_active) r.split in
    let rest_count = count-middle is_active r.before r.after left in
    let fewer : active u ≡ n = ground (arith, a, here_count, counted, rest_count, r.is_on) in
    leave_at s n r.before r.after r.phase r.split r.is_on k w (drain n u fewer refl refl)

module _ {F L D : Type 0} (item : KubervisorServiceItem F L D) where
  -- Stop never blocks for good: from every state in which it waits there is a schedule in which the
  -- goroutines that run leave, and it returns.
  pub stop_returns :
      (s : Routines)
      → Reach (start_routines item) s
      → s.stop ≡ draining
      → (t : Routines) × Reach s t × (t.stop ≡ returned)
  stop_returns s before waits =
      drain s.wait_count s (Reach-counted (start_routines item) s before (start-counted item)) refl
        waits
