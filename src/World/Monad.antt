-- ===== src/World/Monad.antt =====
-- Code that calls the world: it takes the trace so far, and returns a result and the longer trace.
use d2p_migrator.Prelude.{◌∷◌, ◌++◌, ◌≡◌, ◌≢◌, refl, inl, inr, arith, Str}
use d2p_migrator.Prelude.Result.{Result, ok, err, panic, Error, Class, errorf, Result-cases}
use d2p_migrator.World.Requests.{Request, Trace}

abbrev pub Io {ℓ} : Type ℓ → Type ℓ
Io A = Trace → Result A × Trace

module _ {ℓ} {A : Type ℓ} where
  -- A call of the world.
  abbrev pub call : Request → (Trace → Result A) → Io A
  call r answer t = (answer (r ∷ t), r ∷ t)

  abbrev pub lift : Result A → Io A
  lift r t = (r, t)

  abbrev pub pure : A → Io A
  pure a t = (ok a, t)

  abbrev pub fail : Error → Io A
  fail e t = (err e, t)

  abbrev pub failf : Str → Io A
  failf text t = (errorf text, t)

-- What a call that may fail has given, where the code looks at the error.
pub data Attempt {ℓ} (A : Type ℓ) : Type ℓ where
  done : A → Attempt A
  failed : Error → Attempt A

module _ {ℓ} {A : Type ℓ} where
  abbrev pub attempt_result : Result A → Result (Attempt A)
  attempt_result (ok a) = ok (done a)
  attempt_result (err e) = ok (failed e)
  attempt_result panic = panic

  abbrev pub attempt : Io A → Io (Attempt A)
  attempt m t = let (r, t') = m t in (attempt_result r, t')

  abbrev pub wrap_result : (Error → Error) → Result A → Result A
  wrap_result f (ok a) = ok a
  wrap_result f (err e) = err (f e)
  wrap_result f panic = panic

  -- `fmt.Errorf(text + "%v", err)` where a call fails.
  abbrev pub wrap_io : Str → Io A → Io A
  wrap_io text m t = let (r, t') = m t in (wrap_result (λ e. plain_error (text ++ e.text)) r, t')
    where
      plain_error : Str → Error
      plain_error s = record { class = Class.plain; text = s }

module _ {ℓ κ} {A : Type ℓ} {B : Type κ} where
  abbrev pub continue : Result A → (A → Io B) → Io B
  continue (ok a) f t = f a t
  continue (err e) f t = (err e, t)
  continue panic f t = (panic, t)

  infixl 5 ◌>>=◌
  abbrev pub ◌>>=◌ : Io A → (A → Io B) → Io B
  ◌>>=◌ m f t = let (r, t') = m t in continue r f t'

module _ {ℓ} {B : Type ℓ} where
  infixl 5 ◌>>◌
  abbrev pub ◌>>◌ : Io (Unit {0}) → Io B → Io B
  m >> n = m >>= λ _. n

-- A deferred call, whose result is ignored.
abbrev pub finally {ℓ} : {A : Type ℓ} → Io A → Io (Unit {0}) → Io A
finally m last t = let (r, t') = m t in let (_, t'') = last t' in (r, t'')

module _ {ℓ κ} {A : Type ℓ} {B : Type κ} where
  -- A sequence that has returned a value went through both of its parts.
  pub bind-ok :
      (m : Io A) (f : A → Io B) (t : Trace) (b : B)
      → ((m >>= f) t).0 ≡ ok b
      → (a : A) × ((m t).0 ≡ ok a) × ((f a ((m t).1)).0 ≡ ok b) × ((m >>= f) t ≡ f a ((m t).1))
  bind-ok m f t b h = elim (Result-cases ((m t).0)) [
    | inl (a, e) ↦ (a, e, ground (arith, e, h), rw e refl)
    | inr (inl (error, e)) ↦ absurd (ground (arith, e, h))
    | inr (inr e) ↦ absurd (ground (arith, e, h))
  ]

  -- A sequence does not panic where neither part does.
  pub bind-safe :
      (m : Io A) (f : A → Io B) (t : Trace)
      → (m t).0 ≢ panic
      → ((a : A) → (m t).0 ≡ ok a → (f a ((m t).1)).0 ≢ panic)
      → ((m >>= f) t).0 ≢ panic
  bind-safe m f t first second = elim (Result-cases ((m t).0)) [
    | inl (a, e) ↦ rw e (second a e)
    | inr (inl (error, e)) ↦ rw e (λ p. cc)
    | inr (inr e) ↦ absurd (first e)
  ]
