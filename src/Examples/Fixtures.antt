-- ===== src/Examples/Fixtures.antt =====
-- Instances of the parameters, and pods.
use kubervisor.Prelude.{
  ℕ, ◌-◌, ◌*◌, ◌/◌, ◌<◌, ◌^◌, ◌≡◌, arith, none, some, [], ◌∷◌, List, String, ok, ltb, leb, ◌==◌,
  ◌>>=◌,
}
use kubervisor.Prelude.Int.{ℤ, pos, negsuc}
use kubervisor.Prelude.Decimal.{itoa, atoi, atoi-itoa}
use kubervisor.Kube.{Pod, TimeText, KubeClient, SelectorOps}
use kubervisor.Api.{FloatOps}
use kubervisor.Api.Validation.{size}

-- A float as a count of millionths.
abbrev pub millionths : FloatOps ℕ
millionths = record {
  decimal = λ n k. n * 1000000 / 10 ^ k;
  less = ltb;
  less_eq = leb;
  equal = ◌==◌;
  sub = λ a b. a - b;
  abs = λ a. a;
  div = λ a b. a * 1000000 / b;
  to_uint = λ a. a / 1000000;
  to_millis = λ a. pos (a / 1000);
}

-- A time as the decimal count of its seconds.
abbrev seconds_of : ℤ → ℤ
seconds_of (pos n) = pos (n / 1000000000)
seconds_of (negsuc n) = pos 0

abbrev from_seconds : ℤ → ℤ
from_seconds (pos n) = pos (n * 1000000000)
from_seconds (negsuc n) = pos 0

pub parse-format_seconds :
    (t : ℕ)
    → t < 253402300800000000000
    → (atoi (itoa (seconds_of (pos t))) >>= λ z. ok (from_seconds z))
      ≡ ok (pos (t / 1000000000 * 1000000000))
parse-format_seconds t h = rw (atoi-itoa (seconds_of (pos t)) (omega arith))

abbrev pub unix_seconds : TimeText
unix_seconds = record {
  format = λ z. itoa (seconds_of z);
  parse = λ s. atoi s >>= λ z. ok (from_seconds z);
  parse-format = parse-format_seconds;
}

-- A ready pod with the traffic label `v`, the name label `svc` and the retry count `n`.
abbrev pub pod_with : String → String → String → Pod
pod_with name v n = record {
  name = name;
  namespace = "prod";
  labels = some (("app", "shop") ∷ ("kubervisor/name", "svc") ∷ ("kubervisor/traffic", v) ∷ []);
  annotations = some (("breaker/retryCount", n) ∷ ("breaker/breakAt", "100") ∷ []);
  phase = "Running";
  conditions = record { kind = "Ready"; status = "True" } ∷ [];
}

-- A pod that was never touched.
abbrev pub bare_pod : Pod
bare_pod = record {
  name = "bare";
  namespace = "prod";
  labels = none;
  annotations = none;
  phase = "Running";
  conditions = record { kind = "Ready"; status = "True" } ∷ [];
}

-- A server that accepts every request, over the list of the pods written and deleted so far.
abbrev pub accepting : KubeClient (List Pod × List String)
accepting = record {
  update = λ p s. (ok p, (p ∷ s.0, s.1));
  delete = λ ns n s. (none, (s.0, n ∷ s.1));
}

-- Selectors as lists of values, which are equal if they are equally long.
abbrev pub by_text : SelectorOps (List String) String
by_text = record {
  everything = [];
  requirement = λ k v. ok v;
  add = λ l r. r ∷ l;
  deep_equal = λ a b. size a == size b;
}
