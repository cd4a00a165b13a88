-- ===== src/Startup.antt =====
-- How the program starts: cmd/kubervisor/main.go, the options and the connections of
-- pkg/controller/config.go, New, Run and run of pkg/controller/controller.go, and the web server of
-- pkg/controller/httpserver.go. The command line, the makers of clients, the name of the host and the
-- waiting for a cache are parameters.
pub mod Running
pub mod Laws
pub mod RunningLaws
pub mod Web
use kubervisor.Prelude.{
  ℕ, Bool, true, false, Option, none, some, String, str_eq, Outcome, ok, err, panic, Error, errorf,
  if◌then◌else◌,
}
use kubervisor.Prelude.Int.{ℤ, pos}
use kubervisor.Prelude.Dict.{Dict}
use kubervisor.Controller.Ticks.{new_garbage_collector}

-- What a step of the start comes to: a value, an error, the end of the process (Fatalf), or a panic.
pub data Launch {ℓ} (A : Type ℓ) : Type ℓ where
  done : A → Launch A
  fails : Error → Launch A
  exits : Launch A
  crashes : Launch A

infixl 5 ◌>>=◌
abbrev pub ◌>>=◌ {ℓ κ} : {A : Type ℓ} {B : Type κ} → Launch A → (A → Launch B) → Launch B
done a >>= f = f a
fails e >>= f = fails e
exits >>= f = exits
crashes >>= f = crashes

-- `if err != nil { sugar.Fatalf(…) }`
abbrev pub or_exit {ℓ} : {A : Type ℓ} → Outcome A → Launch A
or_exit (ok a) = done a
or_exit (err e) = exits
or_exit panic = crashes

-- The options of the program.
pub record Options : Type 0 where
  pub kube_config_file : String
  pub master : String
  pub listen_addr : String
  pub debug : Bool
  pub nb_worker : ℕ

-- The values before the command line is read.
abbrev pub default_options : Options
default_options = record {
  kube_config_file = "";
  master = "";
  listen_addr = "0.0.0.0:8086";
  debug = false;
  nb_worker = 3;
}

-- What the client libraries make of a configuration `K`: clients of the kinds `C`, `B` and `E`. Over a
-- client `E`, `define_resources` stands for DefineKubervisorResources, whose code is in Registration.
pub record Makers (K C B E : Type 0) : Type 0 where
  pub build_config_from_flags : String → String → Outcome K
  pub in_cluster_config : Outcome K
  pub add_user_agent : K → String → K
  pub ext_client : K → Outcome E
  pub kube_client : K → Outcome C
  pub breaker_client : K → Outcome B
  pub define_resources : E → Outcome (Unit {0})
  pub is_already_exists : Error → Bool

-- The clients of the controller, and the one of the election.
pub record Clients (C B : Type 0) : Type 0 where
  pub kube : C
  pub breaker : B
  pub leader_election : Option C

-- The interface that New is given.
pub record Initializer (C B : Type 0) : Type 0 where
  pub init_clients : Launch (Clients C B)
  pub register_api : Launch (Unit {0})
  pub nb_worker : ℕ
  pub http_addr : String

infixl 5 ◌>>◌
abbrev pub ◌>>◌ {ℓ κ} : {A : Type ℓ} {B : Type κ} → Launch A → Launch B → Launch B
m >> k = m >>= λ _. k

module _ {K C B E : Type 0} (makers : Makers K C B E) (options : Options) where
  unfoldable pub init_kube_config : Outcome K
  init_kube_config =
      if str_eq options.kube_config_file ""
      then makers.in_cluster_config
      else makers.build_config_from_flags options.master options.kube_config_file

  -- A definition that is there already is accepted.
  unfoldable pub accept_defined : Outcome (Unit {0}) → Launch (Unit {0})
  accept_defined (ok u) = done tt
  accept_defined (err e) = if makers.is_already_exists e then done tt else exits
  accept_defined panic = crashes

  unfoldable pub register : Launch (Unit {0})
  unfolding accept_defined init_kube_config
  register = do
    kube_config ← or_exit init_kube_config
    ext_client ← or_exit (makers.ext_client kube_config)
    accept_defined (makers.define_resources ext_client)

  unfoldable pub init_clients : Launch (Clients C B)
  unfolding init_kube_config
  init_clients = do
    kube_config ← or_exit init_kube_config
    kube ← or_exit (makers.kube_client kube_config)
    leader_election ←
        or_exit (makers.kube_client (makers.add_user_agent kube_config "leader-election"))
    breaker ← or_exit (makers.breaker_client kube_config)
    done (record { kube = kube; breaker = breaker; leader_election = some leader_election })

  -- The options as the interface of New.
  unfoldable pub config_initializer : Initializer C B
  unfolding register init_clients
  config_initializer = record {
    init_clients = init_clients;
    register_api = register;
    nb_worker = options.nb_worker;
    http_addr = options.listen_addr;
  }

-- The lock of the election.
pub record EndpointsLock : Type 0 where
  pub namespace : String
  pub name : String
  pub identity : String

-- What New puts together, the informers and the recorder apart.
pub record Controller (C B : Type 0) : Type 0 where
  pub nb_worker : ℕ
  pub kube_client : C
  pub breaker_client : B
  pub locker : Option EndpointsLock
  pub http_addr : String
  pub gc_counters : Dict ℤ

-- The lock, if there is a client for it.
abbrev pub lock_leader : {C : Type 0} → Option C → String → Option EndpointsLock
lock_leader none id = none
lock_leader (some c) id =
    some (record { namespace = "default"; name = "kubervisor"; identity = id })

module _ {C B : Type 0} where
  -- An error makes New return nil.
  abbrev pub or_nil {ℓ} :
      {A : Type ℓ}
      → Launch A
      → (A → Launch (Option (Controller C B)))
      → Launch (Option (Controller C B))
  or_nil (done a) f = f a
  or_nil (fails e) f = done none
  or_nil exits f = exits
  or_nil crashes f = crashes

  -- New. The collector gives up on a pod after two misses.
  unfoldable pub new : Initializer C B → Outcome String → Launch (Option (Controller C B))
  unfolding new_garbage_collector
  new initializer hostname = or_nil initializer.register_api λ _.
      or_nil initializer.init_clients λ clients. do
        id ← or_exit hostname
        counters ← or_exit (new_garbage_collector false false (pos 2))
        done (
            some (record {
              nb_worker = initializer.nb_worker;
              kube_client = clients.kube;
              breaker_client = clients.breaker;
              locker = lock_leader clients.leader_election id;
              http_addr = initializer.http_addr;
              gc_counters = counters;
            }))

-- How the process ends.
pub data Exit : Type 0 where
  exit_code : ℕ → Exit
  crash : Exit

module _ {C B : Type 0} where
  -- The end of main, over what Run comes to, a panic included: a nil controller is dereferenced.
  unfoldable pub end_of :
      (Controller C B → Outcome (Unit {0})) → Launch (Option (Controller C B)) → Exit
  end_of run (done none) = crash
  end_of run (done (some ctrl)) = elim (run ctrl) [
    | ok u ↦ exit_code 0
    | err e ↦ exit_code 1
    | panic ↦ crash
  ]
  end_of run (fails e) = exit_code 1
  end_of run exits = exit_code 1
  end_of run crashes = crash

-- The logger of the debug mode. If it cannot be made, its nil pointer is set all the same, and the first
-- use of it panics.
unfoldable pub set_debug_logger : Options → Outcome (Unit {0}) → Launch (Unit {0})
set_debug_logger options (ok u) = done tt
set_debug_logger options (err e) = if options.debug then crashes else done tt
set_debug_logger options panic = if options.debug then crashes else done tt

-- main, over the two loggers, the command line, the name of the host, and what Run comes to.
unfoldable pub main :
    {K C B E : Type 0}
    → Makers K C B E
    → Outcome (Unit {0})
    → Outcome (Unit {0})
    → Outcome Options
    → Outcome String
    → (Controller C B → Outcome (Unit {0}))
    → Exit
unfolding config_initializer new set_debug_logger end_of
main makers logger development parsed hostname run = end_of run (do
  or_exit logger
  options ← or_exit parsed
  set_debug_logger options development
  new (config_initializer makers options) hostname)
