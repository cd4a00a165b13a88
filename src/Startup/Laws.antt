-- ===== src/Startup/Laws.antt =====
-- The start with the options of the command line does not crash by itself.
use kubervisor.Prelude.{
  ◌≡◌, ◌≢◌, refl, arith, Bool, true, false, Option, none, some, String, Outcome, ok, err, panic,
}
use kubervisor.Prelude.Int.{ltb_ℤ}
use kubervisor.Kube.Returns.{panics}
use kubervisor.Startup.{
  Launch, done, fails, exits, crashes, ◌>>=◌, or_exit, or_nil, Options, Makers, Controller,
  init_kube_config, accept_defined, register, init_clients, config_initializer, new, crash, end_of,
  set_debug_logger, main,
}

-- The makers of clients return: none of them panics.
pub record AreReturning {K C B E : Type 0} (makers : Makers K C B E) : Type 0 where
  pub from_flags :
      (master file : String) → panics (makers.build_config_from_flags master file) ≡ false
  pub in_cluster : panics makers.in_cluster_config ≡ false
  pub ext : (k : K) → panics (makers.ext_client k) ≡ false
  pub kube : (k : K) → panics (makers.kube_client k) ≡ false
  pub breaker : (k : K) → panics (makers.breaker_client k) ≡ false
  pub define : (e : E) → panics (makers.define_resources e) ≡ false

-- A value, or the end of the process.
abbrev proper : {A : Type 0} → Launch A → Bool
proper (done a) = true
proper (fails e) = false
proper exits = true
proper crashes = false

-- A controller, or the end of the process.
abbrev alive : {C B : Type 0} → Launch (Option (Controller C B)) → Bool
alive (done none) = false
alive (done (some c)) = true
alive (fails e) = false
alive exits = true
alive crashes = false

or_exit-proper : {A : Type 0} (r : Outcome A) → panics r ≡ false → proper (or_exit r) ≡ true
or_exit-proper (ok a) h = refl
or_exit-proper (err e) h = refl
or_exit-proper panic h = cc

bind-proper :
    {A B : Type 0} (m : Launch A) (f : A → Launch B)
    → proper m ≡ true
    → ((a : A) → proper (f a) ≡ true)
    → proper (m >>= f) ≡ true
bind-proper (done a) f h k = k a
bind-proper (fails e) f h k = cc
bind-proper exits f h k = refl
bind-proper crashes f h k = cc

module _ {C B : Type 0} where
  bind-alive :
      {A : Type 0} (m : Launch A) (f : A → Launch (Option (Controller C B)))
      → proper m ≡ true
      → ((a : A) → alive (f a) ≡ true)
      → alive (m >>= f) ≡ true
  bind-alive (done a) f h k = k a
  bind-alive (fails e) f h k = cc
  bind-alive exits f h k = refl
  bind-alive crashes f h k = cc

  or_nil-alive :
      {A : Type 0} (m : Launch A) (f : A → Launch (Option (Controller C B)))
      → proper m ≡ true
      → ((a : A) → alive (f a) ≡ true)
      → alive (or_nil m f) ≡ true
  or_nil-alive (done a) f h k = k a
  or_nil-alive (fails e) f h k = cc
  or_nil-alive exits f h k = refl
  or_nil-alive crashes f h k = cc

  end_of-alive :
      (run : Controller C B → Outcome (Unit {0})) (r : Launch (Option (Controller C B)))
      → ((ctrl : Controller C B) → panics (run ctrl) ≡ false)
      → alive r ≡ true
      → end_of run r ≢ crash
  unfolding end_of
  end_of-alive run (done none) quiet h = cc
  end_of-alive run (done (some c)) quiet h = ground (arith, quiet c)
  end_of-alive run (fails e) quiet h = cc
  end_of-alive run exits quiet h = ground arith
  end_of-alive run crashes quiet h = cc

module _ {K C B E : Type 0} (makers : Makers K C B E) (returning : AreReturning makers) where
  kube_config-returns : (options : Options) → panics (init_kube_config makers options) ≡ false
  unfolding init_kube_config
  kube_config-returns options =
      ground
        (arith, returning.in_cluster, returning.from_flags options.master options.kube_config_file)

  accepted-proper :
      (options : Options) (r : Outcome (Unit {0}))
      → panics r ≡ false
      → proper (accept_defined makers options r) ≡ true
  unfolding accept_defined
  accepted-proper options (ok u) h = refl
  accepted-proper options (err e) h = ground arith
  accepted-proper options panic h = cc

  register-proper : (options : Options) → proper (register makers options) ≡ true
  unfolding register
  register-proper options = bind-proper _ _ (or_exit-proper _ (kube_config-returns options)) (λ k.
      bind-proper _ _ (or_exit-proper _ (returning.ext k))
        (λ e. accepted-proper options _ (returning.define e)))

  clients-proper : (options : Options) → proper (init_clients makers options) ≡ true
  unfolding init_clients
  clients-proper options = bind-proper _ _ (or_exit-proper _ (kube_config-returns options)) (λ k.
      bind-proper _ _ (or_exit-proper _ (returning.kube k)) (λ c.
        bind-proper _ _
          (or_exit-proper _ (returning.kube (makers.add_user_agent k "leader-election")))
          (λ l. bind-proper _ _ (or_exit-proper _ (returning.breaker k)) (λ b. refl))))

  new-alive :
      (options : Options) (hostname : Outcome String)
      → panics hostname ≡ false
      → alive (new (config_initializer makers options) hostname) ≡ true
  unfolding new config_initializer ltb_ℤ
  new-alive options hostname h = or_nil-alive _ _ (register-proper options) (λ _.
      or_nil-alive _ _ (clients-proper options)
        (λ clients. bind-alive _ _ (or_exit-proper hostname h) (λ id. refl)))

  -- The start does not crash by itself: if the logger of the debug mode can be made, the makers of
  -- clients, the definition of the resource, the first logger, the command line and the name of the host
  -- return, with a value or an error, and Run does not panic, then the program does not crash. New, which
  -- gives nil after an error that its initializer reports, never gives nil here, since the initializer of
  -- the command line ends the process on each of its errors.
  main_ne_crash :
      (logger development : Outcome (Unit {0})) (parsed : Outcome Options)
      (hostname : Outcome String) (run : Controller C B → Outcome (Unit {0}))
      → panics logger ≡ false
      → development ≡ ok tt
      → panics parsed ≡ false
      → panics hostname ≡ false
      → ((ctrl : Controller C B) → panics (run ctrl) ≡ false)
      → main makers logger development parsed hostname run ≢ crash
  unfolding main set_debug_logger
  main_ne_crash logger development parsed hostname run logs develops parses named quiet =
      end_of-alive run _ quiet (
        bind-alive _ _ (or_exit-proper logger logs) (λ _.
          bind-alive _ _ (or_exit-proper parsed parses)
            (λ options. rw develops (new-alive options hostname named))))
