-- ===== src/Execution.antt =====
-- custos/execution.py: forwarding an allowed request, behind the check of the target and a circuit breaker
-- for each host. Times are milliseconds; the client's answer to a request is an argument.
pub mod Target
pub mod Contacts
pub mod Circuits
use Prim.Native.Char.{code}
use Prim.Native.Nat.{lt, eq, gt}
use Prim.Native.String
use Prim.Native.String.{compare}
use custos_core.Common.{
  ℕ, zero, suc, ◌+◌, ◌-◌, String, Bool, true, false, ◌&&◌, ◌||◌, Option, none, some, List, [], ◌∷◌,
  leb, ltb, ◌==◌, str_eq, is_nonempty, or_else, Result, ok, err, if◌then◌else◌,
}
use custos_core.Common.Dict.{Dict, lookup, insert}
use custos_core.Execution.Target.{Url, Net, SsrfError, validate_target_url}

pub record CircuitState : Type 0 where
  pub failure_count : ℕ
  pub failure_threshold : ℕ
  pub last_failure_time : ℕ
  pub reset_timeout : ℕ

pub data Phase : Type 0 where
  closed opened half_open : Phase

-- The property `state`.
unfoldable pub phase : ℕ → CircuitState → Phase
phase now c =
    if ltb c.failure_count c.failure_threshold
    then closed
    else if ltb c.reset_timeout (now - c.last_failure_time)
    then half_open
    else opened

abbrev pub can_proceed : ℕ → CircuitState → Bool
can_proceed now c = elim (phase now c) [ closed ↦ true | opened ↦ false | half_open ↦ true ]

pub record HttpExecutionAdapter : Type 0 where
  pub allowlist : List String
  pub circuit_threshold : ℕ
  pub circuit_reset : ℕ
  pub circuits : Dict CircuitState

abbrev fresh_circuit : HttpExecutionAdapter → CircuitState
fresh_circuit a = record {
  failure_count = 0;
  failure_threshold = a.circuit_threshold;
  last_failure_time = 0;
  reset_timeout = a.circuit_reset;
}

-- The circuit that `get_circuit` returns, and the adapter after, which holds it.
unfoldable pub circuit_of : String → HttpExecutionAdapter → CircuitState
circuit_of host a = elim (lookup host a.circuits) [ none ↦ fresh_circuit a | some c ↦ c ]

abbrev pub put_circuit : String → CircuitState → HttpExecutionAdapter → HttpExecutionAdapter
put_circuit host c a = record a { circuits = insert host c a.circuits }

abbrev pub get_circuit : String → HttpExecutionAdapter → CircuitState × HttpExecutionAdapter
get_circuit host a = (circuit_of host a, put_circuit host (circuit_of host a) a)

unfoldable pub can_request : String → ℕ → HttpExecutionAdapter → Bool × HttpExecutionAdapter
can_request host now a =
    let (c, a') = get_circuit host a in
    let (d, a'') = get_circuit "default" a' in (can_proceed now c && can_proceed now d, a'')

unfoldable pub record_failure : String → ℕ → HttpExecutionAdapter → HttpExecutionAdapter
record_failure host now a =
    let c = circuit_of host a in
    put_circuit host (record c { failure_count = c.failure_count + 1; last_failure_time = now }) a

abbrev succeeded : CircuitState → CircuitState
succeeded c = record c { failure_count = 0 }

abbrev all_succeeded : Dict CircuitState → Dict CircuitState
all_succeeded [] = []
all_succeeded ((host, c) ∷ circuits) = (host, succeeded c) ∷ all_succeeded circuits

unfoldable pub record_success : String → HttpExecutionAdapter → HttpExecutionAdapter
record_success host a =
    if str_eq host "default"
    then record a { circuits = all_succeeded a.circuits }
    else put_circuit host (succeeded (circuit_of host a)) a

-- `":" in text`
has_colon : String → Bool
has_colon String.[] = false
has_colon (String.◌∷◌ c text) = code c == 58 || has_colon text

-- The order of the key `(":" in a, a)`.
pub comes_before : String → String → Bool
unfolding has_colon
comes_before a b = elim (has_colon a) [
  | true ↦ elim (has_colon b) [
    | true ↦ elim (compare a b) [ lt ↦ true | eq ↦ false | gt ↦ false ]
    | false ↦ false
  ]
  | false ↦ elim (has_colon b) [
    | true ↦ true
    | false ↦ elim (compare a b) [ lt ↦ true | eq ↦ false | gt ↦ false ]
  ]
]

-- The first of the sorted addresses.
unfoldable pub first_of : String → List String → String
first_of best [] = best
first_of best (x ∷ xs) = first_of (if comes_before x best then x else best) xs

abbrev pub pick : List String → Option String
pick [] = none
pick (x ∷ xs) = some (first_of x xs)

-- `text[:n]`
pub prefix : ℕ → String → String
prefix zero text = ""
prefix (suc n) String.[] = ""
prefix (suc n) (String.◌∷◌ c text) = String.◌∷◌ c (prefix n text)

-- How the client's request ends.
pub data Response : Type 0 where
  answered : (status : ℕ) (text : String) → Response
  timeout connect_error other_error : Response

pub data ForwardError : Type 0 where
  ssrf_blocked : SsrfError → ForwardError
  breaker_open downstream_timeout connection_refused forwarding_failed : ForwardError

pub record ExecutionResult : Type 0 where
  pub forwarded : Bool
  pub status_code : Option ℕ
  pub response_body : Option String
  pub error : Option ForwardError
  pub circuit_open : Bool

-- A call of `forward`: the URL, parsed, what its name resolves to, the clock at the start and at the end,
-- and the client's answer.
pub record Request : Type 0 where
  pub url_text : String
  pub url : Url
  pub resolution : Option (List String)
  pub now : ℕ
  pub later : ℕ
  pub response : Response

abbrev pub failed : ForwardError → ExecutionResult
failed e = record {
  forwarded = false;
  status_code = none;
  response_body = none;
  error = some e;
  circuit_open = false;
}

-- `_get_host`
abbrev pub target_host : Net → Request → String
target_host net r = net.lower (or_else r.url.hostname r.url_text)

abbrev preview : String → Option String
preview text = if is_nonempty text then some (prefix 500 text) else none

-- The result, the address that was connected to, if any, and the adapter after.
pub record Forwarded : Type 0 where
  pub result : ExecutionResult
  pub connected : Option String
  pub adapter : HttpExecutionAdapter

-- The request to the pinned address, and its handlers.
unfoldable pub send : String → Request → Option String → HttpExecutionAdapter → Forwarded
send host r ip a =
    let lost : ForwardError → Forwarded =
      λ e. record { result = failed e; connected = ip; adapter = record_failure host r.later a } in
    elim r.response [
      | answered status text ↦ record {
        result = record {
          forwarded = true;
          status_code = some status;
          response_body = preview text;
          error = none;
          circuit_open = false;
        };
        connected = ip;
        adapter = record_success host a;
      }
      | timeout ↦ lost downstream_timeout
      | connect_error ↦ lost connection_refused
      | other_error ↦ lost forwarding_failed
    ]

unfoldable pub forward_checked :
    String → Request → HttpExecutionAdapter → Result SsrfError (List String) → Forwarded
forward_checked host r a (err e) = record {
  result = failed (ssrf_blocked e);
  connected = none;
  adapter = a;
}
forward_checked host r a (ok pinned) =
    let (passes, a') = can_request host r.now a in
    let sent = send host r (pick pinned) a' in
    if passes then sent else record {
      result = record (failed breaker_open) { circuit_open = true };
      connected = none;
      adapter = a';
    }

-- `HTTPExecutionAdapter.forward`
unfoldable pub forward : Net → Request → HttpExecutionAdapter → Forwarded
forward net r a =
    forward_checked (target_host net r) r a (validate_target_url net r.url a.allowlist r.resolution)
