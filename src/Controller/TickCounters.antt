-- ===== src/Controller/TickCounters.antt =====
-- The counters of the collector: which are due, and that their keys stay readable.
use kubervisor.Prelude.{
  ◌≡◌, refl, arith, eq_iff, Bool, true, false, not, List, [], ◌∷◌, String, Outcome, ok, err, panic,
  Error, All, str_eq, if◌then◌else◌, map, Bool-cases, inl, inr, ◌||◌,
}
use kubervisor.Prelude.Int.{ℤ, ltb_ℤ}
use kubervisor.Prelude.Dict
use kubervisor.Prelude.Dict.{Dict}
use kubervisor.Kube.{Pod}
use kubervisor.Controller.Collector.{key, is_orphan, count_orphans, update_counters, delete_keys}
use kubervisor.Controller.CollectorLaws.{HasNoSlash}

-- The key of a namespace and a name without a slash, of which `Known` holds.
pub record IsKey (Known : String → String → Type 0) (k : String) : Type 0 where
  pub namespace : String
  pub name : String
  pub plain_namespace : HasNoSlash namespace
  pub plain_name : HasNoSlash name
  pub known : Known namespace name
  pub joined : k ≡ key namespace name

-- The pods have names without a slash, of which `Known` holds.
pub data AreNamed (Known : String → String → Type 0) : Outcome (List Pod) → Type 0 where
  listed :
      (pods : List Pod)
      → All (λ p. HasNoSlash p.namespace × HasNoSlash p.name × Known p.namespace p.name) pods
      → AreNamed Known (ok pods)
  unlisted : (e : Error) → AreNamed Known (err e)

put-All :
    (P : String → Type 0) (m : Dict ℤ) (k : String) (n : ℤ)
    → P k
    → All (λ e. P e.0) m
    → All (λ e. P e.0) (Dict.put m k n)
unfolding Dict.put
put-All P [] k n p h = (p, tt)
put-All P ((j, v) ∷ m) k n p h = elim (Bool-cases (str_eq j k)) [
  | inl e ↦ rw e h
  | inr e ↦ rw e (h.0, put-All P m k n p h.1)
]

count_orphans-All :
    (Known : String → String → Type 0) (known : List String) (pods : List Pod) (m : Dict ℤ)
    → All (λ p. HasNoSlash p.namespace × HasNoSlash p.name × Known p.namespace p.name) pods
    → All (λ e. IsKey Known e.0) m
    → All (λ e. IsKey Known e.0) (count_orphans known pods m)
unfolding count_orphans
count_orphans-All Known known [] m named h = h
count_orphans-All Known known (p ∷ pods) m named h = elim (Bool-cases (is_orphan known p)) [
  | inl e ↦
      let k : IsKey Known (key p.namespace p.name) = record {
        namespace = p.namespace;
        name = p.name;
        plain_namespace = named.0.0;
        plain_name = named.0.1;
        known = named.0.2;
        joined = refl;
      } in
      rw e (count_orphans-All Known known pods _ named.1 (put-All (IsKey Known) m _ _ k h))
  | inr e ↦ rw e (count_orphans-All Known known pods m named.1 h)
]

-- The keys that reached the limit.
unfoldable pub due : ℤ → Dict ℤ → List String
due miss [] = []
due miss ((k, n) ∷ m) = if not (ltb_ℤ n miss) then k ∷ due miss m else due miss m

-- An entry is below the limit, or its key is in a list.
has : String → List String → Bool
has k [] = false
has k (j ∷ keys) = str_eq j k || has k keys

pub Settled : ℤ → List String → Dict ℤ → Type 0
Settled miss keys m = All (λ e. (ltb_ℤ e.1 miss || has e.0 keys) ≡ true) m

remove-Settled :
    (miss : ℤ) (j : String) (keys : List String) (m : Dict ℤ)
    → Settled miss (j ∷ keys) m
    → Settled miss keys (Dict.remove m j)
unfolding Settled has Dict.remove
remove-Settled miss j keys [] h = tt
remove-Settled miss j keys ((k, n) ∷ m) h =
    ground (arith, h.0, remove-Settled miss j keys m h.1, eq_iff j k, eq_iff k j)

pub delete_keys-below :
    (miss : ℤ) (keys : List String) (m : Dict ℤ)
    → Settled miss keys m
    → All (λ e. ltb_ℤ e.1 miss ≡ true) (delete_keys keys m)
unfolding delete_keys Settled has
delete_keys-below miss [] [] h = tt
delete_keys-below miss [] ((k, n) ∷ m) h = (ground (arith, h.0), delete_keys-below miss [] m h.1)
delete_keys-below miss (j ∷ keys) m h =
    delete_keys-below miss keys (Dict.remove m j) (remove-Settled miss j keys m h)

nothing-Settled : (miss : ℤ) → Settled miss [] []
unfolding Settled
nothing-Settled miss = tt

Settled-cons :
    (miss : ℤ) (j : String) (keys : List String) (m : Dict ℤ)
    → Settled miss keys m
    → Settled miss (j ∷ keys) m
unfolding Settled has
Settled-cons miss j keys [] h = tt
Settled-cons miss j keys ((k, n) ∷ m) h = (ground (arith, h.0), Settled-cons miss j keys m h.1)

-- One entry more, whose key is due if it reached the limit.
due-step :
    (miss : ℤ) (k : String) (n : ℤ) (keys : List String) (m : Dict ℤ) (below : Bool)
    → ltb_ℤ n miss ≡ below
    → Settled miss keys m
    → Settled miss (if not below then k ∷ keys else keys) ((k, n) ∷ m)
unfolding Settled has
due-step miss k n keys m true e h = (ground (arith, e), h)
due-step miss k n keys m false e h = (ground (arith, eq_iff k k), Settled-cons miss k keys m h)

pub due-Settled : (miss : ℤ) (m : Dict ℤ) → Settled miss (due miss m) m
unfolding due
due-Settled miss [] = nothing-Settled miss
due-Settled miss ((k, n) ∷ m) =
    due-step miss k n (due miss m) m (ltb_ℤ n miss) refl (due-Settled miss m)

remove-All :
    (P : String → Type 0) (m : Dict ℤ) (k : String)
    → All (λ e. P e.0) m
    → All (λ e. P e.0) (Dict.remove m k)
unfolding Dict.remove
remove-All P [] k h = tt
remove-All P ((j, v) ∷ m) k h = elim (Bool-cases (str_eq j k)) [
  | inl e ↦ rw e (remove-All P m k h.1)
  | inr e ↦ rw e (h.0, remove-All P m k h.1)
]

pub delete_keys-All :
    (P : String → Type 0) (keys : List String) (m : Dict ℤ)
    → All (λ e. P e.0) m
    → All (λ e. P e.0) (delete_keys keys m)
unfolding delete_keys
delete_keys-All P [] m h = h
delete_keys-All P (k ∷ keys) m h = delete_keys-All P keys (Dict.remove m k) (remove-All P m k h)

pub update_counters-All :
    (Known : String → String → Type 0) (services : Outcome (List (String × String)))
    (pods : Outcome (List Pod)) (m : Dict ℤ)
    → AreNamed Known pods
    → All (λ e. IsKey Known e.0) m
    → All (λ e. IsKey Known e.0) (update_counters services pods m)
unfolding update_counters
update_counters-All Known (ok services) _ m (listed pods named) h =
    count_orphans-All Known (map (λ s. key s.0 s.1) services) pods m named h
update_counters-All Known (ok services) _ m (unlisted e) h = h
update_counters-All Known (err e) _ m (listed pods named) h = h
update_counters-All Known (err e) _ m (unlisted x) h = h
update_counters-All Known panic _ m (listed pods named) h = h
update_counters-All Known panic _ m (unlisted x) h = h
