-- ===== src/Exec/Atomic.antt =====
-- Actions that change nothing when they fail: they read and check first, and then only write.
use go_acme_server.Prelude.{◌≡◌, refl, Bool, true, false, if◌then◌else◌, Option, none, some, ◌∙◌}
use go_acme_server.Exec.{
  Ctx, Exec, Result, ok, err, StoreError, pure, raise, or_raise, gets, modify, fail_if, check_ctx,
  continue, ◌>>=◌,
}

-- The action leaves the state as it is.
pub record Reads {A : Type 0} {S : Type 0} (m : Exec S A) : Type 0 where
  pub same : (s : S) → (m s).1 ≡ s

-- The action has no error.
pub record Succeeds {A : Type 0} {S : Type 0} (m : Exec S A) : Type 0 where
  pub value : (s : S) → (a : A) × ((m s).0 ≡ ok a)

-- An error leaves the state as it was.
pub record IsAtomic {A : Type 0} {S : Type 0} (m : Exec S A) : Type 0 where
  pub unchanged : (s : S) (e : StoreError) → (m s).0 ≡ err e → (m s).1 ≡ s

module _ {A : Type 0} {S : Type 0} where
  pub Reads-pure : (a : A) → Reads {S = S} (pure a)
  unfolding pure
  Reads-pure a = record { same = λ s. refl }

  pub Reads-raise : (e : StoreError) → Reads {A = A} {S = S} (raise e)
  unfolding raise
  Reads-raise e = record { same = λ s. refl }

  pub Reads-or_raise : (e : StoreError) (o : Option A) → Reads {S = S} (or_raise e o)
  unfolding or_raise
  Reads-or_raise e none = record { same = λ s. refl }
  Reads-or_raise e (some a) = record { same = λ s. refl }

  pub Reads-gets : (f : S → A) → Reads (gets f)
  unfolding gets
  Reads-gets f = record { same = λ s. refl }

  pub Succeeds-pure : (a : A) → Succeeds {S = S} (pure a)
  unfolding pure
  Succeeds-pure a = record { value = λ s. (a, refl) }

  pub Succeeds-gets : (f : S → A) → Succeeds (gets f)
  unfolding gets
  Succeeds-gets f = record { value = λ s. (f s, refl) }

  pub IsAtomic-of_Succeeds : {m : Exec S A} → Succeeds m → IsAtomic m
  IsAtomic-of_Succeeds h = record { unchanged = λ s e p. let (a, q) = h.value s in cc (p, q) }

  pub IsAtomic-of_Reads : {m : Exec S A} → Reads m → IsAtomic m
  IsAtomic-of_Reads h = record { unchanged = λ s e p. h.same s }

  pub Reads-if : (b : Bool) (m n : Exec S A) → Reads m → Reads n → Reads (if b then m else n)
  Reads-if true m n hm hn = hm
  Reads-if false m n hm hn = hn

module _ {S : Type 0} where
  pub Reads-fail_if : (b : Bool) (e : StoreError) → Reads {S = S} (fail_if b e)
  unfolding fail_if
  Reads-fail_if true e = record { same = λ s. refl }
  Reads-fail_if false e = record { same = λ s. refl }

  pub Reads-check_ctx : (c : Ctx) → Reads {S = S} (check_ctx c)
  unfolding check_ctx
  Reads-check_ctx none = record { same = λ s. refl }
  Reads-check_ctx (some e) = record { same = λ s. refl }

  pub Succeeds-modify : (f : S → S) → Succeeds (modify f)
  unfolding modify
  Succeeds-modify f = record { value = λ s. (tt, refl) }

module _ {A B : Type 0} {S : Type 0} where
  continue_same :
      (r : Result A) (f : A → Exec S B) (s t : S)
      → t ≡ s
      → ((a : A) → Reads (f a))
      → (continue (r, t) f).1 ≡ s
  continue_same (ok a) f s t p h = (h a).same t ∙ p
  continue_same (err e) f s t p h = p

  pub Reads-bind :
      (m : Exec S A) (f : A → Exec S B) → Reads m → ((a : A) → Reads (f a)) → Reads (m >>= f)
  unfolding ◌>>=◌
  Reads-bind m f hm hf = record { same = λ s. continue_same (m s).0 f s (m s).1 (hm.same s) hf }

  continue-Succeeds :
      (m : Result A × S) (f : A → Exec S B) (a : A)
      → m.0 ≡ ok a
      → ((a : A) → Succeeds (f a))
      → (b : B) × ((continue m f).0 ≡ ok b)
  continue-Succeeds (ok a', t) f a p h = (h a').value t
  continue-Succeeds (err e, t) f a p h = cc

  pub Succeeds-bind :
      (m : Exec S A) (f : A → Exec S B)
      → Succeeds m
      → ((a : A) → Succeeds (f a))
      → Succeeds (m >>= f)
  unfolding ◌>>=◌
  Succeeds-bind m f hm hf = record {
    value = λ s. let (a, p) = hm.value s in continue-Succeeds (m s) f a p hf;
  }

  continue_unchanged :
      (m : Result A × S) (f : A → Exec S B) (s : S) (e : StoreError)
      → m.1 ≡ s
      → ((a : A) → IsAtomic (f a))
      → (continue m f).0 ≡ err e
      → (continue m f).1 ≡ s
  continue_unchanged (ok a, t) f s e p h q = (h a).unchanged t e q ∙ p
  continue_unchanged (err e', t) f s e p h q = p

  -- Reads before the last failure, writes after it.
  pub IsAtomic-bind :
      (m : Exec S A) (f : A → Exec S B) → Reads m → ((a : A) → IsAtomic (f a)) → IsAtomic (m >>= f)
  unfolding ◌>>=◌
  IsAtomic-bind m f hm hf = record {
    unchanged = λ s e q. continue_unchanged (m s) f s e (hm.same s) hf q;
  }

  continue_writes :
      (m : Result A × S) (f : A → Exec S B) (s : S) (e : StoreError)
      → ((e' : StoreError) → m.0 ≡ err e' → m.1 ≡ s)
      → ((a : A) → Succeeds (f a))
      → (continue m f).0 ≡ err e
      → (continue m f).1 ≡ s
  continue_writes (ok a, t) f s e p h q = let (b, r) = (h a).value t in cc (q, r)
  continue_writes (err e', t) f s e p h q = p e' refl

  -- An atomic action may stand before writes.
  pub IsAtomic-bind_writes :
      (m : Exec S A) (f : A → Exec S B)
      → IsAtomic m
      → ((a : A) → Succeeds (f a))
      → IsAtomic (m >>= f)
  unfolding ◌>>=◌
  IsAtomic-bind_writes m f hm hf = record {
    unchanged = λ s e q. continue_writes (m s) f s e (hm.unchanged s) hf q;
  }

pub ruleset reads_rules = (
  Reads-pure, Reads-raise, Reads-or_raise, Reads-gets, Reads-fail_if, Reads-check_ctx, Reads-if,
  Reads-bind,
)

pub ruleset writes_rules = (Succeeds-pure, Succeeds-gets, Succeeds-modify, Succeeds-bind)
