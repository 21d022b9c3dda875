-- ===== src/Exec.antt =====
-- store.go: the errors of a store, and the methods that change one. What was written before an
-- error stays written, so the state comes back beside the error too.
pub mod Atomic
use go_acme_server.Prelude.{
  ◌⊎◌, inl, inr, ◌≡◌, refl, sym, ap, arith, Bool, true, false, Option, none, some,
}

-- A context that is done has an error.
pub data CtxError : Type 0 where
  canceled deadline_exceeded : CtxError

pub data StoreError : Type 0 where
  not_found conflict revision_mismatch already_replaced : StoreError
  -- `errors.New` with a text of the store's own.
  refused : StoreError
  done : CtxError → StoreError
  -- A nil pointer was read.
  panicked : StoreError

pub data Result {ℓ} (A : Type ℓ) : Type ℓ where
  ok : A → Result A
  err : StoreError → Result A

pub Result-cases {ℓ} :
    {A : Type ℓ} (r : Result A) → ((a : A) × (r ≡ ok a)) ⊎ ((e : StoreError) × (r ≡ err e))
Result-cases (ok a) = inl (a, refl)
Result-cases (err e) = inr (e, refl)

abbrev pub Ctx : Type 0
Ctx = Option CtxError

abbrev pub Exec {ℓ} : Type ℓ → Type ℓ → Type ℓ
Exec S A = S → Result A × S

module _ {ℓ} {S A : Type ℓ} where
  pub pure : A → Exec S A
  pure a s = (ok a, s)

  pub raise : StoreError → Exec S A
  raise e s = (err e, s)

  pub or_raise : StoreError → Option A → Exec S A
  or_raise e none s = (err e, s)
  or_raise e (some a) s = (ok a, s)

  pub gets : (S → A) → Exec S A
  gets f s = (ok (f s), s)

module _ {S : Type 0} where
  pub modify : (S → S) → Exec S (Unit {0})
  modify f s = (ok tt, f s)

  -- `if bad { return e }`
  pub fail_if : Bool → StoreError → Exec S (Unit {0})
  fail_if true e s = (err e, s)
  fail_if false e s = (ok tt, s)

  -- `if err := ctx.Err(); err != nil { return err }`
  pub check_ctx : Ctx → Exec S (Unit {0})
  check_ctx none s = (ok tt, s)
  check_ctx (some e) s = (err (done e), s)

ok_ne_err {ℓ} :
    {S B : Type ℓ} {b : B} {x : StoreError} {s t : S}
    → ◌≡◌ {A = Result B × S} (ok b, s) (err x, t)
    → ⊥
ok_ne_err h = ground arith

module _ {ℓ} {S A B : Type ℓ} where
  abbrev pub continue : Result A × S → (A → Exec S B) → Result B × S
  continue (ok a, s) f = f a s
  continue (err e, s) f = (err e, s)

  infixl 5 ◌>>=◌ ◌>>◌
  -- Opening this opens the actions above too.
  unfoldable pub ◌>>=◌ : Exec S A → (A → Exec S B) → Exec S B
  unfolding pure raise or_raise gets modify fail_if check_ctx
  ◌>>=◌ m f s = continue (m s) f

  abbrev pub ◌>>◌ : Exec S A → Exec S B → Exec S B
  m >> n = m >>= λ _. n

  -- A chain that succeeds has succeeded in each step.
  pub >>=-eq-ok :
      (m : Exec S A) (f : A → Exec S B) (s t : S) (b : B)
      → (m >>= f) s ≡ (ok b, t)
      → (a : A) × (s' : S) × (m s ≡ (ok a, s')) × (f a s' ≡ (ok b, t))
  unfolding ◌>>=◌
  >>=-eq-ok m f s t b h = go (m s) refl
    where
      go :
          (r : Result A × S)
          → m s ≡ r
          → (a : A) × (s' : S) × (m s ≡ (ok a, s')) × (f a s' ≡ (ok b, t))
      go (ok a, s') e = (a, s', e, rw e at h)
      go (err x, s') e = absurd (ok_ne_err (sym (rw e at h)))
