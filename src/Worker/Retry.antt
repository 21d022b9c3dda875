-- ===== src/Worker/Retry.antt =====
-- worker.go: how a task is put back and dropped.
use go_acme_server.Prelude.{ℕ, zero, suc, Bool, ◌+◌, ◌-◌, ◌*◌, ◌%◌, ◌^◌, ltb, if◌then◌else◌}
use go_acme_server.Exec.{StoreError}
use go_acme_server.Resource.{Task, Challenge}
use go_acme_server.Problem.{Problem}
use go_acme_server.Memstore.Tasks.{reschedule_task, finish_task}
use go_acme_server.Memstore.Work.{retry_validation}
use go_acme_server.Server.{
  Server, Run, HostError, retryable, pure, now, call, on, is_not_found, is_mismatch, ◌>>=◌, ◌>>◌,
}

-- A duration is a signed 64-bit integer, written as the number below 2 ^ 64 that it is modulo 2 ^ 64:
-- the negative ones are those from 2 ^ 63.
abbrev pub wrap : ℕ → ℕ
wrap n = n % 2 ^ 64

-- `a < b` on durations.
abbrev pub is_shorter : ℕ → ℕ → Bool
is_shorter a b = ltb (wrap (a + 2 ^ 63)) (wrap (b + 2 ^ 63))

-- `t.Add(d)`, where a negative duration goes back in time.
abbrev pub add_duration : ℕ → ℕ → ℕ
add_duration t d = if ltb d (2 ^ 63) then t + d else t - (2 ^ 64 - d)

-- `for i := 1; i < task.Attempts && delay < 32*retryDelay; i++ { delay *= 2 }`, with the rounds left.
unfoldable pub double_delay : ℕ → ℕ → ℕ → ℕ
double_delay zero base delay = delay
double_delay (suc rounds) base delay =
    let doubled = double_delay rounds base (wrap (delay * 2)) in
    if is_shorter delay (wrap (32 * base)) then doubled else delay

module _ (s : Server) where
  -- The exponential backoff before the next attempt of a task.
  unfoldable pub retry_delay : Task → ℕ
  unfolding double_delay
  retry_delay task = double_delay (task.attempts - 1) s.workers.retry_delay s.workers.retry_delay

  -- The error of `RescheduleTask` is only logged.
  unfoldable pub store_reschedule : Task → Run (Unit {0})
  store_reschedule task = do call s (λ c. reschedule_task c task); pure tt

  unfoldable pub reschedule : Task → ℕ → Run (Unit {0})
  unfolding store_reschedule retry_delay
  reschedule task at =
      store_reschedule (record task { run_at = add_duration at (retry_delay task) })

  unfoldable pub finish : Task → Run (Unit {0})
  finish task = do call s (λ c. finish_task c task); pure tt

  -- Drops a task whose target vanished and releases one whose lookup failed for another reason.
  unfoldable pub drop_on_not_found : Task → StoreError → Run (Unit {0})
  unfolding finish reschedule
  drop_on_not_found task e =
      if is_not_found e then finish task else (do at ← now s; reschedule task at)

  -- A challenge that changed meanwhile is left alone and the next claim reloads it.
  unfoldable pub retry : Task → Challenge → ℕ → Run (Unit {0})
  unfolding store_reschedule retry_delay
  retry task challenge at = do
    let put_off = record task { run_at = add_duration at (retry_delay task) }
    stored ← call s (λ c. retry_validation c put_off challenge)
    on stored (λ e. if is_mismatch e then store_reschedule put_off else pure tt) (λ _. pure tt)

-- What a client sees of a failure that may clear on a later attempt.
unfoldable pub retry_problem : HostError → Problem → Problem
retry_problem (retryable p) fallback = p
retry_problem _ fallback = fallback
