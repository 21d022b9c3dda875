-- ===== src/Worker/Backoff.antt =====
-- worker.go: the backoff grows by doubling, up to 32 times the configured delay.
use go_acme_server.Prelude.{ℕ, zero, suc, ◌-◌, ◌*◌, ◌^◌, ◌<◌, ◌≡◌, arith}
use go_acme_server.Resource.{Task}
use go_acme_server.Server.{Server}
use go_acme_server.Worker.Retry.{double_delay, retry_delay}

-- The factor after the given number of rounds.
abbrev pub factor : ℕ → ℕ
factor zero = 1
factor (suc zero) = 2
factor (suc (suc zero)) = 4
factor (suc (suc (suc zero))) = 8
factor (suc (suc (suc (suc zero)))) = 16
factor (suc (suc (suc (suc (suc n))))) = 32

double_delay-factor :
    (rounds base : ℕ) → base < 2 ^ 58 → double_delay rounds base base ≡ factor rounds * base
unfolding double_delay
double_delay-factor zero base h = omega arith
double_delay-factor (suc zero) base h = ground arith
double_delay-factor (suc (suc zero)) base h = ground arith
double_delay-factor (suc (suc (suc zero))) base h = ground arith
double_delay-factor (suc (suc (suc (suc zero)))) base h = ground arith
double_delay-factor (suc (suc (suc (suc (suc zero))))) base h = ground arith
double_delay-factor (suc (suc (suc (suc (suc (suc n)))))) base h = ground arith

-- A task that is put back waits the configured delay, doubled once for each attempt after the
-- first and at most five times: 1, 2, 4, 8, 16 and from then on 32 delays. The configured delay is
-- below 2 ^ 58 nanoseconds, which are more than nine years, so that 32 of it are a duration.
pub retry_delay-factor :
    (s : Server) (task : Task) (small : s.workers.retry_delay < 2 ^ 58)
    → retry_delay s task ≡ factor (task.attempts - 1) * s.workers.retry_delay
unfolding retry_delay
retry_delay-factor s task small =
    double_delay-factor (task.attempts - 1) s.workers.retry_delay small
