-- ===== src/Settings/Workers.antt =====
-- server.go: the worker configuration that `withDefaults` lets through.
use go_acme_server.Prelude.{
  ℕ, zero, suc, refl, ◌*◌, ◌^◌, ◌≡◌, ap, subst, ◌≤◌, ◌<◌, ◌⊎◌, inl, inr, arith, false, ◌||◌, ltb,
  ◌=?◌, Bool-cases,
}
use go_acme_server.Settings.{
  ℤ, pos, negsuc, is_negative, value, WorkerSettings, usable, any_negative, lease_or_default,
  settled, with_defaults, or_default, second, twice,
}

positive_or_default : (n default : ℕ) → 1 ≤ default → 1 ≤ or_default n default
positive_or_default n default h = ground arith

not_negative :
    (c : WorkerSettings ℤ)
    → any_negative c ≡ false
    → (is_negative c.lease ≡ false)
      × (is_negative c.task_timeout ≡ false)
      × (is_negative c.concurrency ≡ false)
      × (is_negative c.poll_interval ≡ false)
      × (is_negative c.max_attempts ≡ false)
      × (is_negative c.retry_delay ≡ false)
      × (is_negative c.stale_after ≡ false)
not_negative c h = (
  ground arith,
  ground arith,
  ground arith,
  ground arith,
  ground arith,
  ground arith,
  ground arith,
)

twice-half : (n : ℕ) → n < 2 ^ 62 → twice n ≡ 2 * n
unfolding twice
twice-half n h = ground arith

default_timeout :
    (lease task_timeout : ℕ)
    → task_timeout < 2 ^ 62
    → (lease_or_default lease task_timeout).1 < 2 ^ 62
unfolding lease_or_default
default_timeout lease task_timeout h = ground arith

-- The value that the host set, unless it set none.
abbrev pub IsKept : ℤ → ℕ → Type 0
IsKept z n = (z ≡ pos 0) ⊎ (z ≡ pos n)

or_default-IsKept :
    (z : ℤ) (default : ℕ) → is_negative z ≡ false → IsKept z (or_default (value z) default)
or_default-IsKept (pos zero) default h = inl refl
or_default-IsKept (pos (suc n)) default h = inr (ground arith)
or_default-IsKept (negsuc n) default h = absurd (ground arith)

kept_lease :
    (z : ℤ) (n : ℕ)
    → is_negative z ≡ false
    → (value z ≡ 0) ⊎ (value z ≡ n)
    → (z ≡ pos 0) ⊎ (z ≡ pos n)
kept_lease (pos m) n h (inl e) = inl (ap pos e)
kept_lease (pos m) n h (inr e) = inr (ap pos e)
kept_lease (negsuc m) n h e = absurd (ground arith)

lease_or_default-keeps :
    (lease task_timeout : ℕ)
    → ((lease ≡ 0) ⊎ (lease ≡ (lease_or_default lease task_timeout).0))
      × ((task_timeout ≡ 0) ⊎ (task_timeout ≡ (lease_or_default lease task_timeout).1))
unfolding lease_or_default
lease_or_default-keeps lease task_timeout = (ground arith, ground arith)

-- What a configuration that may be used has.
abbrev pub IsSound : WorkerSettings ℤ → WorkerSettings ℕ → Type 0
IsSound c d =
    (1 ≤ d.concurrency)
    × (1 ≤ d.poll_interval)
    × (1 ≤ d.task_timeout)
    × (2 * d.task_timeout ≤ d.lease)
    × (1 ≤ d.max_attempts)
    × (1 ≤ d.retry_delay)
    × (1 ≤ d.stale_after)
    × IsKept c.lease d.lease
    × IsKept c.task_timeout d.task_timeout
    × IsKept c.concurrency d.concurrency
    × IsKept c.poll_interval d.poll_interval
    × IsKept c.max_attempts d.max_attempts
    × IsKept c.retry_delay d.retry_delay
    × IsKept c.stale_after d.stale_after

-- A worker configuration that is let through has a positive value for every setting, and a lease of
-- at least two task timeouts, so that a call that uses its whole timeout leaves time to record its
-- outcome. What the host set is kept. The timeout that the host sets has to be below 2 ^ 62
-- nanoseconds, which are more than 146 years, so that its double is a duration.
pub with_defaults-bounds :
    (c : WorkerSettings ℤ) (d : WorkerSettings ℕ) (let_through : with_defaults c ≡ usable d)
    (small : value c.task_timeout < 2 ^ 62)
    → IsSound c d
unfolding with_defaults
with_defaults-bounds c d let_through small = elim (Bool-cases (any_negative c)) [
  | inl bad ↦ absurd (ground arith)
  | inr fine ↦
      let times = lease_or_default (value c.lease) (value c.task_timeout) in
      let e = twice-half times.1 (default_timeout (value c.lease) (value c.task_timeout) small) in
      elim (Bool-cases (times.1 =? 0 || ltb times.0 (twice times.1))) [
        | inl short ↦ absurd (ground arith)
        | inr long ↦
            let same : settled c times ≡ d = ground arith in
            let (a, b, f, g, h, i, j) = not_negative c fine in
            let kept = lease_or_default-keeps (value c.lease) (value c.task_timeout) in
            subst (λ e. IsSound c e) same
              (
                positive_or_default (value c.concurrency) 4 (omega arith),
                positive_or_default (value c.poll_interval) second (omega arith),
                ground arith,
                ground arith,
                positive_or_default (value c.max_attempts) 5 (omega arith),
                positive_or_default (value c.retry_delay) (5 * second) (omega arith),
                positive_or_default (value c.stale_after) (60 * second) (omega arith),
                kept_lease c.lease times.0 a kept.0,
                kept_lease c.task_timeout times.1 b kept.1,
                or_default-IsKept c.concurrency 4 f,
                or_default-IsKept c.poll_interval second g,
                or_default-IsKept c.max_attempts 5 h,
                or_default-IsKept c.retry_delay (5 * second) i,
                or_default-IsKept c.stale_after (60 * second) j,
              )
      ]
]
