-- ===== src/Serving/Breaker/Examples.antt =====
-- A breaker whose server does not answer.
use weather.Common.{arith, ℕ, suc, ◌≡◌, refl, false, none, [], ◌∷◌, leb, ◌+◌}
use weather.Common.Int.{pos}
use weather.Common.Text.{Text, codes}
use weather.Common.Dict.{text_key}
use weather.Serving.Breaker.{Redis, Breaker, is_available, record_failure}
use weather.Serving.Breaker.Trip.{fail_each, breaker_trips}

-- The state counts the calls.
abbrev unreachable : Redis ℕ
unreachable = record {
  ping = λ n. (suc n, false);
  get = λ key n. (suc n, none);
  delete = λ keys n. (suc n, none);
  incr = λ key n. (suc n, none);
  expire = λ key seconds n. (suc n, none);
  set = λ key seconds n. (suc n, none);
  keys = λ pattern n. (suc n, none);
}

abbrev fresh : Breaker
fresh = record { failure_threshold = pos 3; cooldown = 30; failures = []; cooldown_until = [] }

abbrev photon : Text
photon = codes "photon"

abbrev twice : ℕ × Breaker
twice = fail_each unreachable photon (100 ∷ 101 ∷ []) fresh 0

abbrev once : ℕ × Breaker
once = fail_each unreachable photon (100 ∷ []) fresh 0

abbrev thrice : ℕ × Breaker
thrice = record_failure unreachable photon false 102 twice.1 twice.0

breaker_trips_example :
    ((is_available unreachable once.1 photon 110 once.0).1
      ≡ (is_available unreachable fresh photon 110 0).1)
    × ((is_available unreachable thrice.1 photon 110 thrice.0).1 ≡ leb (102 + 30) 110)
breaker_trips_example =
    breaker_trips unreachable (λ n. refl) photon refl fresh 2 refl refl (100 ∷ []) (100 ∷ 101 ∷ [])
      102 110 0 (omega arith) refl
