-- ===== src/Serving/Breaker/Trip.antt =====
-- When the breaker of a process without a server opens, and when it closes again.
use weather.Common.{
  ℕ, suc, ◌+◌, ◌≤◌, ◌<◌, ◌≡◌, refl, sym, ap, ◌∙◌, subst, Bool, true, false, none, List, [], ◌∷◌,
  length, leb, arith,
}
use weather.Common.Int.{pos, leb_ℤ}
use weather.Common.Text.{Text, text_eq_refl}
use weather.Common.Dict.{Dict, lookup, erase, lookup-insert_self, lookup-erase, text_key}
use weather.Serving.Breaker.{
  Redis, Breaker, is_exempt, or_zero, with_client, is_available, clear_provider, record_success,
  record_failure_locally, record_failure,
}

client_down :
    {S A : Type 0} (p : S × Bool) (remote local : S → A)
    → p.1 ≡ false
    → with_client p remote local ≡ local p.0
client_down (s, true) remote local h = cc
client_down (s, false) remote local h = refl

-- Failures of a provider, none of them with status 429, one after the other at the given times.
abbrev pub fail_each : {S : Type 0} → Redis S → Text → List ℕ → Breaker → S → S × Breaker
fail_each redis provider [] b s = (s, b)
fail_each redis provider (now ∷ times) b s =
    let r = record_failure redis provider false now b s in fail_each redis provider times r.1 r.0

abbrev fail_locally : Text → List ℕ → Breaker → Breaker
fail_locally provider [] b = b
fail_locally provider (now ∷ times) b =
    fail_locally provider times (record_failure_locally provider false now b)

-- What fewer failures than the threshold leave: a count, and everything else as it was.
record Counted (provider : Text) (b later : Breaker) (n : ℕ) : Type 0 where
  counted : or_zero (lookup provider later.failures) ≡ n
  threshold_kept : later.failure_threshold ≡ b.failure_threshold
  cooldown_kept : later.cooldown ≡ b.cooldown
  until_kept : later.cooldown_until ≡ b.cooldown_until

count_one :
    (provider : Text) (now limit : ℕ) (b : Breaker)
    → b.failure_threshold ≡ pos limit
    → or_zero (lookup provider b.failures) + 1 < limit
    → Counted provider b
        (record_failure_locally provider false now b)
        (or_zero (lookup provider b.failures) + 1)
unfolding record_failure_locally
count_one provider now limit b e h =
    let below : leb_ℤ b.failure_threshold (pos (or_zero (lookup provider b.failures) + 1)) ≡ false =
      rw e (ground arith) in
    rw below (record {
      counted =
          ap or_zero
            (lookup-insert_self provider (or_zero (lookup provider b.failures) + 1) b.failures);
      threshold_kept = refl;
      cooldown_kept = refl;
      until_kept = refl;
    })

count_all :
    (provider : Text) (times : List ℕ) (limit : ℕ) (b : Breaker)
    → b.failure_threshold ≡ pos limit
    → or_zero (lookup provider b.failures) + length times < limit
    → Counted provider b
        (fail_locally provider times b)
        (or_zero (lookup provider b.failures) + length times)
count_all provider [] limit b e h = record {
  counted = omega arith;
  threshold_kept = refl;
  cooldown_kept = refl;
  until_kept = refl;
}
count_all provider (now ∷ times) limit b e h =
    let one = count_one provider now limit b e (omega arith) in
    let b' = record_failure_locally provider false now b in
    let rest =
      count_all provider times limit b' (one.threshold_kept ∙ e) (omega (arith, one.counted)) in
    record {
      counted = omega (arith, rest.counted, one.counted);
      threshold_kept = rest.threshold_kept ∙ one.threshold_kept;
      cooldown_kept = rest.cooldown_kept ∙ one.cooldown_kept;
      until_kept = rest.until_kept ∙ one.until_kept;
    }

trip_at :
    (provider : Text) (now limit : ℕ) (b : Breaker)
    → b.failure_threshold ≡ pos limit
    → limit ≤ or_zero (lookup provider b.failures) + 1
    → let after = record_failure_locally provider false now b in
      (after.failure_threshold ≡ b.failure_threshold)
      × (or_zero (lookup provider after.cooldown_until) ≡ now + b.cooldown)
unfolding record_failure_locally
trip_at provider now limit b e h =
    let reached : leb_ℤ b.failure_threshold (pos (or_zero (lookup provider b.failures) + 1))
        ≡ true =
      rw e (ground arith) in
    rw reached (refl, ap or_zero (lookup-insert_self provider (now + b.cooldown) b.cooldown_until))

erase_self : (k : Text) (d : Dict Text ℕ) → lookup k (erase k d) ≡ none
erase_self k d = lookup-erase k k d ∙ rw (text_eq_refl k) refl

module _ {S : Type 0} (redis : Redis S) (down : (s : S) → (redis.ping s).1 ≡ false)
    (provider : Text) (named : is_exempt provider ≡ false) where
  recorded-locally :
      (now : ℕ) (b : Breaker) (s : S)
      → (record_failure redis provider false now b s).1
        ≡ record_failure_locally provider false now b
  unfolding record_failure
  recorded-locally now b s =
      rw named (ap (λ (r : S × Breaker). r.1) (client_down (redis.ping s) _ _ (down s)))

  fail_each-locally :
      (times : List ℕ) (b : Breaker) (s : S)
      → (fail_each redis provider times b s).1 ≡ fail_locally provider times b
  fail_each-locally [] b s = refl
  fail_each-locally (now ∷ times) b s =
      let r : S × Breaker = record_failure redis provider false now b s in
      fail_each-locally times r.1 r.0 ∙ ap (fail_locally provider times) (recorded-locally now b s)

  cleared-locally :
      (b : Breaker) (s : S) → (record_success redis provider b s).1 ≡ clear_provider provider b
  unfolding record_success
  cleared-locally b s =
      rw named (ap (λ (r : S × Breaker). r.1) (client_down (redis.ping s) _ _ (down s)))

  available-locally :
      (b : Breaker) (limit now : ℕ) (s : S)
      → b.failure_threshold ≡ pos (suc limit)
      → (is_available redis b provider now s).1
        ≡ leb (or_zero (lookup provider b.cooldown_until)) now
  unfolding is_available
  available-locally b limit now s e =
      let positive : leb_ℤ (pos (suc limit)) (pos 0) ≡ false = ground arith in
      rw (named, e, positive) (ap (λ (r : S × Bool). r.1) (client_down (redis.ping s) _ _ (down s)))

  -- While the Redis server does not answer, and from a state with no failure counted for a
  -- provider: after any number of failures below the threshold the provider is as available as it
  -- was; and the failure that reaches the threshold makes it unavailable until the cooldown after
  -- that failure has passed, and no longer. No failure is one with status 429.
  pub breaker_trips :
      (b : Breaker) (limit : ℕ)
      → b.failure_threshold ≡ pos (suc limit)
      → lookup provider b.failures ≡ none
      → (few times : List ℕ) (last now : ℕ) (s : S) → length few ≤ limit
      → length times ≡ limit
      → let early = fail_each redis provider few b s in
        let before = fail_each redis provider times b s in
        let after = record_failure redis provider false last before.1 before.0 in
        ((is_available redis early.1 provider now early.0).1
          ≡ (is_available redis b provider now s).1)
        × ((is_available redis after.1 provider now after.0).1 ≡ leb (last + b.cooldown) now)
  breaker_trips b limit e fresh few times last now s le n =
      let none_counted : or_zero (lookup provider b.failures) ≡ 0 = ap or_zero fresh in
      let before : S × Breaker = fail_each redis provider times b s in
      let c =
        subst (λ l. Counted provider b l (or_zero (lookup provider b.failures) + length times))
          (sym (fail_each-locally times b s))
          (count_all provider times (suc limit) b e (omega arith)) in
      let after : S × Breaker = record_failure redis provider false last before.1 before.0 in
      let r = recorded-locally last before.1 before.0 in
      let tripped =
        trip_at provider last (suc limit) before.1 (c.threshold_kept ∙ e)
          (omega (arith, c.counted)) in
      let early : S × Breaker = fail_each redis provider few b s in
      let q =
        subst (λ l. Counted provider b l (or_zero (lookup provider b.failures) + length few))
          (sym (fail_each-locally few b s))
          (count_all provider few (suc limit) b e (omega arith)) in
      (
        available-locally early.1 limit now early.0 (q.threshold_kept ∙ e)
            ∙ ap (λ d. leb (or_zero (lookup provider d)) now) q.until_kept
            ∙ sym (available-locally b limit now s e),
        available-locally after.1 limit now after.0
              (ap (λ (x : Breaker). x.failure_threshold) r ∙ tripped.0 ∙ c.threshold_kept ∙ e)
            ∙ ap (λ (x : Breaker). leb (or_zero (lookup provider x.cooldown_until)) now) r
            ∙ ap (λ u. leb u now) tripped.1
            ∙ ap (λ u. leb (last + u) now) c.cooldown_kept,
      )

  -- Without a server, a success makes its provider available at once and forgets its failures,
  -- whatever the state was.
  pub success_resets :
      (b : Breaker) (limit now : ℕ) (s : S)
      → b.failure_threshold ≡ pos (suc limit)
      → let r = record_success redis provider b s in
        ((is_available redis r.1 provider now r.0).1 ≡ true) × (lookup provider r.1.failures ≡ none)
  success_resets b limit now s e =
      let after = clear_provider provider b in
      let left = (record_success redis provider b s).0 in
      let open_now : (is_available redis after provider now left).1 ≡ true =
        available-locally after limit now left e
        ∙ ap (λ o. leb (or_zero o) now) (erase_self provider b.cooldown_until)
        ∙ ground arith in
      subst
        (λ c.
          ((is_available redis c provider now left).1 ≡ true) × (lookup provider c.failures ≡ none))
        (sym (cleared-locally b s)) (open_now, erase_self provider b.failures)
