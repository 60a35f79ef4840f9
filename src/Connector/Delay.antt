-- ===== src/Connector/Delay.antt =====
-- The back-off of cobra/connector.cpp retry.
use cobra.Base.{ℕ, zero, suc, ◌*◌, ◌^◌, ◌≡◌, refl, ap, ◌∙◌, true, min, arith}
use cobra.Connector.{Connector, retry, init_retry_delay, max_retry_delay}

-- The connector after `n` retries in a row.
abbrev pub retried : ℕ → ℕ → Connector → Connector
retried zero fd c = c
retried (suc n) fd c = (retry fd (retried n fd c)).0

retry-connect : (fd : ℕ) (c : Connector) → c.connect ≡ true → (retry fd c).0.connect ≡ true
unfolding retry
retry-connect fd c e = rw e refl

retry-delay :
    (fd : ℕ) (c : Connector)
    → c.connect ≡ true
    → (retry fd c).0.retry_delay ≡ min (c.retry_delay * 2) max_retry_delay
unfolding retry
retry-delay fd c e = rw e refl

retried-connect : (n fd : ℕ) (c : Connector) → c.connect ≡ true → (retried n fd c).connect ≡ true
retried-connect zero fd c e = e
retried-connect (suc n) fd c e = retry-connect fd (retried n fd c) (retried-connect n fd c e)

double : (n : ℕ) → min (min (500 * 2 ^ n) 30000 * 2) 30000 ≡ min (500 * 2 ^ suc n) 30000
double n = omega arith

-- The wait before the next attempt, after `n` failures in a row from the initial delay, is 500 ms
-- doubled `n` times, and never more than 30 seconds: while the connector is not stopped.
retried-delay :
    (n fd : ℕ) (c : Connector)
    → c.connect ≡ true
    → c.retry_delay ≡ init_retry_delay
    → (retried n fd c).retry_delay ≡ min (500 * 2 ^ n) 30000
retried-delay zero fd c on start = start
retried-delay (suc n) fd c on start =
    retry-delay fd (retried n fd c) (retried-connect n fd c on)
    ∙ ap (λ d. min (d * 2) 30000) (retried-delay n fd c on start)
    ∙ double n
