-- ===== src/Serving/Breaker.antt =====
-- `SearchCircuitBreaker` of services/api/src/api/services/circuit_breaker.py. The Redis server is
-- a parameter: its state and the calls that the breaker makes.
use weather.Common.{
  ℕ, ◌+◌, Bool, true, false, not, ◌||◌, Option, none, some, List, [], ◌∷◌, ◌++◌, any, ltb, leb,
  if◌then◌else◌,
}
use weather.Common.Int.{ℤ, pos, negsuc, leb_ℤ}
use weather.Common.Text.{Text, codes, text_eq}
use weather.Common.Dict.{Dict, lookup, insert, erase, text_key}
pub mod Trip
mod Examples

-- A call to the server: the state that it leaves, and its value unless it raises.
abbrev pub Call : Type 0 → Type 0 → Type 0
Call S A = S → S × Option A

abbrev pub next_call : {S A B : Type 0} → S × Option A → (A → Call S B) → S × Option B
next_call (s, none) k = (s, none)
next_call (s, some a) k = k a s

infixl 5 ◌>>=◌
abbrev pub ◌>>=◌ : {S A B : Type 0} → Call S A → (A → Call S B) → Call S B
m >>= k = λ s. next_call (m s) k

abbrev pub returns : {S A : Type 0} → A → Call S A
returns a = λ s. (s, some a)

-- `ping` is whether `_get_redis` yields a client; `get` is whether the key has a value that is not
-- empty; `set` sets the value "degraded" with a time to live in seconds.
pub record Redis (S : Type 0) : Type 0 where
  pub ping : S → S × Bool
  pub get : Text → Call S Bool
  pub delete : List Text → Call S (Unit {0})
  pub incr : Text → Call S ℕ
  pub expire : Text → ℕ → Call S (Unit {0})
  pub set : Text → ℕ → Call S (Unit {0})
  pub keys : Text → Call S (List Text)

-- Times and the cooldown are in seconds.
pub record Breaker : Type 0 where
  pub failure_threshold : ℤ
  pub cooldown : ℕ
  pub failures : Dict Text ℕ
  pub cooldown_until : Dict Text ℕ

abbrev pub is_exempt : Text → Bool
is_exempt [] = true
is_exempt (c ∷ cs) = text_eq (c ∷ cs) (codes "mock") || text_eq (c ∷ cs) (codes "stub")

abbrev pub failures_key : Text → Text
failures_key provider = codes "weather:search:failures:" ++ provider

abbrev pub breaker_key : Text → Text
breaker_key provider = codes "weather:search:breaker:" ++ provider

abbrev pub or_zero : Option ℕ → ℕ
or_zero none = 0
or_zero (some n) = n

-- What the breaker answers without a server.
pub is_available_locally : Breaker → Text → ℕ → Bool
is_available_locally b provider now = leb (or_zero (lookup provider b.cooldown_until)) now

abbrev pub answer : {S : Type 0} → Bool → S × Option Bool → S × Bool
answer local (s, some is_open) = (s, not is_open)
answer local (s, none) = (s, local)

abbrev pub with_client : {S A : Type 0} → S × Bool → (S → A) → (S → A) → A
with_client (s, true) remote local = remote s
with_client (s, false) remote local = local s

pub is_available : {S : Type 0} → Redis S → Breaker → Text → ℕ → S → S × Bool
unfolding is_available_locally
is_available redis b provider now s =
    let local = is_available_locally b provider now in
    if is_exempt provider || leb_ℤ b.failure_threshold (pos 0)
    then (s, true)
    else with_client (redis.ping s) (λ s. answer local (redis.get (breaker_key provider) s))
        (λ s. (s, local))

-- Both dictionaries without the provider.
abbrev pub clear_provider : Text → Breaker → Breaker
clear_provider provider b = record b {
  failures = erase provider b.failures;
  cooldown_until = erase provider b.cooldown_until;
}

pub record_success : {S : Type 0} → Redis S → Text → Breaker → S → S × Breaker
record_success redis provider b s =
    let cleared = clear_provider provider b in
    if is_exempt provider
    then (s, b)
    else with_client (redis.ping s)
        (λ s. ((redis.delete (failures_key provider ∷ breaker_key provider ∷ []) s).0, cleared))
        (λ s. (s, cleared))

-- The cooldown starts, and the count is dropped.
abbrev pub trip : Text → ℕ → Breaker → Breaker
trip provider now b = record b {
  failures = erase provider b.failures;
  cooldown_until = insert provider (now + b.cooldown) b.cooldown_until;
}

pub record_failure_locally : Text → Bool → ℕ → Breaker → Breaker
record_failure_locally provider is_429 now b =
    let current = or_zero (lookup provider b.failures) + 1 in
    let counted = record b { failures = insert provider current b.failures } in
    if is_429
    then trip provider now b
    else if leb_ℤ b.failure_threshold (pos current)
    then trip provider now counted
    else counted

-- What a failure does on the server.
pub record_failure_remotely : {S : Type 0} → Redis S → Text → Bool → Breaker → Call S (Unit {0})
record_failure_remotely redis provider true b = do
  done ← redis.set (breaker_key provider) b.cooldown
  redis.delete (failures_key provider ∷ [])
record_failure_remotely redis provider false b = do
  count ← redis.incr (failures_key provider)
  done ← redis.expire (failures_key provider) (b.cooldown + b.cooldown)
  if leb_ℤ b.failure_threshold (pos count)
      then (do
        set ← redis.set (breaker_key provider) b.cooldown
        redis.delete (failures_key provider ∷ []))
      else returns tt

abbrev pub unless_raised : {S : Type 0} → Breaker → Breaker → S × Option (Unit {0}) → S × Breaker
unless_raised b local (s, some done) = (s, b)
unless_raised b local (s, none) = (s, local)

pub record_failure : {S : Type 0} → Redis S → Text → Bool → ℕ → Breaker → S → S × Breaker
unfolding record_failure_locally record_failure_remotely
record_failure redis provider is_429 now b s =
    let local = record_failure_locally provider is_429 now b in
    if is_exempt provider
    then (s, b)
    else with_client (redis.ping s)
        (λ s. unless_raised b local (record_failure_remotely redis provider is_429 b s))
        (λ s. (s, local))

pub delete_each : {S : Type 0} → Redis S → List Text → Call S (Unit {0})
delete_each redis [] = returns tt
delete_each redis (key ∷ keys) = do done ← redis.delete (key ∷ []); delete_each redis keys

pub reset_remotely : {S : Type 0} → Redis S → Text → Call S (Unit {0})
unfolding delete_each
reset_remotely redis [] = do
  failure_keys ← redis.keys (codes "weather:search:failures:*")
  done ← delete_each redis failure_keys
  breaker_keys ← redis.keys (codes "weather:search:breaker:*")
  delete_each redis breaker_keys
reset_remotely redis (c ∷ cs) = redis.delete (failures_key (c ∷ cs) ∷ breaker_key (c ∷ cs) ∷ [])

abbrev pub reset_locally : Text → Breaker → Breaker
reset_locally [] b = record b { failures = []; cooldown_until = [] }
reset_locally (c ∷ cs) b = clear_provider (c ∷ cs) b

-- The empty text stands for no provider.
pub reset : {S : Type 0} → Redis S → Text → Breaker → S → S × Breaker
unfolding reset_remotely
reset redis provider b s =
    let after = reset_locally provider b in
    with_client (redis.ping s) (λ s. ((reset_remotely redis provider s).0, after)) (λ s. (s, after))
