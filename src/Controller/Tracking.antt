-- ===== src/Controller/Tracking.antt =====
-- Which item objects run: exactly those that the store holds.
use kubervisor.Prelude.{
  ℕ, ◌+◌, ◌<◌, ◌≡◌, sym, ap, subst, ◌∙◌, arith, eq_iff, Bool, true, false, ◌==◌, none, some, String,
  ok, str_eq, if◌then◌else◌, Bool-cases, inl, inr, ◌⊎◌,
}
use kubervisor.Controller.Store.{Handle, ItemStore, key_of, set_runs}

-- What the cache promises: an object replaces the one with its key, and no call fails on an object
-- that has a key.
pub record StoreLaws {St I : Type 0} (store : ItemStore St I) (key : I → String) : Type 0 where
  pub update_ok : (i : I) (t : St) → (store.update i t).0 ≡ none
  pub add_ok : (i : I) (t : St) → (store.add i t).0 ≡ none
  pub delete_ok : (i : I) (t : St) → (store.delete i t).0 ≡ none
  pub get-update :
      (i : I) (t : St) (k : String)
      → store.get_by_key k (store.update i t).1
        ≡ (if str_eq (key i) k then ok (some i) else store.get_by_key k t)
  pub get-add :
      (i : I) (t : St) (k : String)
      → store.get_by_key k (store.add i t).1
        ≡ (if str_eq (key i) k then ok (some i) else store.get_by_key k t)
  pub get-delete :
      (i : I) (t : St) (k : String)
      → store.get_by_key k (store.delete i t).1
        ≡ (if str_eq (key i) k then ok none else store.get_by_key k t)

-- Every stored item runs and has a key and a number of its own, and every object that runs is stored
-- or was leaked.
pub record Accounted {F L D St : Type 0} (Leaked : ℕ → Type 0) (store : ItemStore St (Handle F L D))
    (t : St) (runs : ℕ → Bool) (created : ℕ) : Type 0 where
  pub keyed : (k : String) (h : Handle F L D) → store.get_by_key k t ≡ ok (some h) → key_of h ≡ k
  pub old : (k : String) (h : Handle F L D) → store.get_by_key k t ≡ ok (some h) → h.id < created
  pub running :
      (k : String) (h : Handle F L D) → store.get_by_key k t ≡ ok (some h) → runs h.id ≡ true
  pub distinct :
      (j k : String) (g h : Handle F L D)
      → store.get_by_key j t ≡ ok (some g)
      → store.get_by_key k t ≡ ok (some h)
      → g.id ≡ h.id
      → j ≡ k
  pub stored :
      (id : ℕ)
      → runs id ≡ true
      → Leaked id
        ⊎ ((k : String) × (h : Handle F L D) × (store.get_by_key k t ≡ ok (some h)) × (h.id ≡ id))

-- None was leaked: exactly the stored items run.
abbrev pub Tracked :
    {F L D St : Type 0} → ItemStore St (Handle F L D) → St → (ℕ → Bool) → ℕ → Type 0
Tracked store t runs created = Accounted (λ id. ⊥) store t runs created

-- Any other object may run as well.
abbrev pub AllRun : {F L D St : Type 0} → ItemStore St (Handle F L D) → St → (ℕ → Bool) → ℕ → Type 0
AllRun store t runs created = Accounted (λ id. Unit) store t runs created

module _ {F L D St : Type 0} (Leaked : ℕ → Type 0) (store : ItemStore St (Handle F L D)) (t : St)
    (runs : ℕ → Bool) (created : ℕ) (w : Accounted Leaked store t runs created) where
  -- A number that no item took may be skipped.
  pub Accounted-next : Accounted Leaked store t runs (created + 1)
  Accounted-next = record {
    keyed = w.keyed;
    old = λ k h e. omega (arith, w.old k h e);
    running = w.running;
    distinct = w.distinct;
    stored = w.stored;
  }

  -- A store with the same entries.
  pub Accounted-same :
      (t' : St)
      → ((k : String) → store.get_by_key k t' ≡ store.get_by_key k t)
      → Accounted Leaked store t' runs created
  Accounted-same t' same = record {
    keyed = λ k h e. w.keyed k h (sym (same k) ∙ e);
    old = λ k h e. w.old k h (sym (same k) ∙ e);
    running = λ k h e. w.running k h (sym (same k) ∙ e);
    distinct = λ j k g h e f. w.distinct j k g h (sym (same j) ∙ e) (sym (same k) ∙ f);
    stored = λ id r. elim (w.stored id r) [
      | inl l ↦ inl l
      | inr (k, h, e, i) ↦ inr (k, h, same k ∙ e, i)
    ];
  }

  -- An item that is stopped and removed.
  pub Accounted-remove :
      (laws : StoreLaws store key_of) (j : String) (g : Handle F L D)
      → store.get_by_key j t ≡ ok (some g)
      → Accounted Leaked store (store.delete g t).1 (set_runs g.id false runs) created
  Accounted-remove laws j g e = record {
    keyed = λ k h f. w.keyed k h (was k h f);
    old = λ k h f. w.old k h (was k h f);
    running = λ k h f. ground (arith, w.running k h (was k h f), apart k h f);
    distinct = λ i k a b f f'. w.distinct i k a b (was i a f) (was k b f');
    stored = λ id r. elim (w.stored id (ground (arith, r))) [
      | inl l ↦ inl l
      | inr (k, h, f, same) ↦ inr (
        k,
        h,
        ground (arith, laws.get-delete g t k, w.keyed j g e, f, e, eq_iff (key_of g) k, same, r),
        same,
      )
    ];
  }
    where
      was :
          (k : String) (h : Handle F L D)
          → store.get_by_key k (store.delete g t).1 ≡ ok (some h)
          → store.get_by_key k t ≡ ok (some h)
      was k h f = ground (arith, laws.get-delete g t k)

      apart :
          (k : String) (h : Handle F L D)
          → store.get_by_key k (store.delete g t).1 ≡ ok (some h)
          → (g.id == h.id) ≡ false
      apart k h f = elim (Bool-cases (g.id == h.id)) [
        | inl same ↦
            let eq = w.distinct j k g h e (was k h f) (ground (arith, same)) in
            absurd
              (ground (arith, f, laws.get-delete g t k, w.keyed j g e, eq, eq_iff (key_of g) k))
        | inr differs ↦ differs
      ]

  -- An item that is removed and goes on to run.
  pub Accounted-forget :
      (laws : StoreLaws store key_of) (j : String) (g : Handle F L D)
      → store.get_by_key j t ≡ ok (some g)
      → AllRun store (store.delete g t).1 runs created
  Accounted-forget laws j g e =
      let w' = Accounted-remove laws j g e in
      record {
        keyed = w'.keyed;
        old = w'.old;
        running = λ k h f. ground (arith, w'.running k h f);
        distinct = w'.distinct;
        stored = λ id r. inl tt;
      }

  pub Accounted-AllRun : AllRun store t runs created
  Accounted-AllRun = record {
    keyed = w.keyed;
    old = w.old;
    running = w.running;
    distinct = w.distinct;
    stored = λ id r. inl tt;
  }

  -- A new item that is stored under a free key, and started.
  pub Accounted-insert :
      (g : Handle F L D) (t' : St)
      → g.id ≡ created
      → store.get_by_key (key_of g) t ≡ ok none
      → ((k : String)
          → store.get_by_key k t'
            ≡ (if str_eq (key_of g) k then ok (some g) else store.get_by_key k t))
      → Accounted Leaked store t' (set_runs g.id true runs) (created + 1)
  Accounted-insert g t' fresh free law = record {
    keyed = λ k h f. elim (origin k h f) [
      | inl (e, s) ↦ subst (λ x. key_of x ≡ k) s e
      | inr (e, q) ↦ w.keyed k h q
    ];
    old = λ k h f. elim (origin k h f) [
      | inl (e, s) ↦ omega (arith, ap (λ x. x.id) s, fresh)
      | inr (e, q) ↦ omega (arith, w.old k h q)
    ];
    running = λ k h f. elim (origin k h f) [
      | inl (e, s) ↦ subst (λ x. set_runs g.id true runs x.id ≡ true) s (ground arith)
      | inr (e, q) ↦ ground (arith, w.running k h q)
    ];
    distinct = λ i k a b f f' same. elim (origin i a f) [
      | inl (e, s) ↦ elim (origin k b f') [
        | inl (e', s') ↦ sym e ∙ e'
        | inr (e', q) ↦ absurd (omega (arith, ap (λ x. x.id) s, fresh, w.old k b q, same))
      ]
      | inr (e, q) ↦ elim (origin k b f') [
        | inl (e', s) ↦ absurd (omega (arith, ap (λ x. x.id) s, fresh, w.old i a q, same))
        | inr (e', q') ↦ w.distinct i k a b q q' same
      ]
    ];
    stored = λ id r. elim (Bool-cases (g.id == id)) [
      | inl e ↦ inr (
        key_of g,
        g,
        ground (arith, law (key_of g), eq_iff (key_of g) (key_of g)),
        ground (arith, e),
      )
      | inr e ↦ elim (w.stored id (ground (arith, e, r))) [
        | inl l ↦ inl l
        | inr (k, h, f, same) ↦
            inr (k, h, ground (arith, law k, free, f, eq_iff (key_of g) k), same)
      ]
    ];
  }
    where
      -- An entry is the new one, or an old one.
      origin :
          (k : String) (h : Handle F L D)
          → store.get_by_key k t' ≡ ok (some h)
          → ((key_of g ≡ k) × (g ≡ h))
            ⊎ ((str_eq (key_of g) k ≡ false) × (store.get_by_key k t ≡ ok (some h)))
      origin k h f = elim (Bool-cases (str_eq (key_of g) k)) [
        | inl e ↦ inl (ground (arith, e, eq_iff (key_of g) k), ground (arith, e, law k, f))
        | inr e ↦ inr (e, ground (arith, e, law k, f))
      ]
