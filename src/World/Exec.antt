-- ===== src/World/Exec.antt =====
-- Methods that change the object they are called on: the object comes back beside an error too.
use d2p_migrator.Prelude.{◌≡◌, ◌≢◌, refl, inl, inr, arith}
use d2p_migrator.Prelude.Result.{Result, ok, err, panic, Result-cases}
use d2p_migrator.World.Requests.{Trace}
use d2p_migrator.World.Monad.{Io}

abbrev pub Exec {ℓ} : Type 0 → Type ℓ → Type ℓ
Exec S A = S → Trace → Result A × S × Trace

module _ {ℓ} {S : Type 0} {A : Type ℓ} where
  -- Code that does not touch the object.
  abbrev pub io : Io A → Exec S A
  io m s t = let (r, t') = m t in (r, s, t')

  abbrev pub gets : (S → A) → Exec S A
  gets f s t = (ok (f s), s, t)

module _ {S : Type 0} where
  abbrev pub modify : (S → S) → Exec S (Unit {0})
  modify f s t = (ok tt, f s, t)

module _ {ℓ κ} {S : Type 0} {A : Type ℓ} {B : Type κ} where
  abbrev pub continue : Result A → (A → Exec S B) → Exec S B
  continue (ok a) f s t = f a s t
  continue (err e) f s t = (err e, s, t)
  continue panic f s t = (panic, s, t)

  infixl 5 ◌>>=◌
  abbrev pub ◌>>=◌ : Exec S A → (A → Exec S B) → Exec S B
  ◌>>=◌ m f s t = let (r, s', t') = m s t in continue r f s' t'

module _ {ℓ} {S : Type 0} {B : Type ℓ} where
  infixl 5 ◌>>◌
  abbrev pub ◌>>◌ : Exec S (Unit {0}) → Exec S B → Exec S B
  m >> n = m >>= λ _. n

module _ {ℓ κ} {S : Type 0} {A : Type ℓ} {B : Type κ} where
  -- A sequence that has returned a value went through both of its parts.
  pub bind-ok :
      (m : Exec S A) (f : A → Exec S B) (s : S) (t : Trace) (b : B)
      → ((m >>= f) s t).0 ≡ ok b
      → (a : A) × ((m s t).0 ≡ ok a)
        × ((f a ((m s t).1) ((m s t).2)).0 ≡ ok b)
        × ((m >>= f) s t ≡ f a ((m s t).1) ((m s t).2))
  bind-ok m f s t b h = elim (Result-cases ((m s t).0)) [
    | inl (a, e) ↦ (a, e, ground (arith, e, h), rw e refl)
    | inr (inl (error, e)) ↦ absurd (ground (arith, e, h))
    | inr (inr e) ↦ absurd (ground (arith, e, h))
  ]

  -- A sequence does not panic where neither part does.
  pub bind-safe :
      (m : Exec S A) (f : A → Exec S B) (s : S) (t : Trace)
      → (m s t).0 ≢ panic
      → ((a : A) → (m s t).0 ≡ ok a → (f a ((m s t).1) ((m s t).2)).0 ≢ panic)
      → ((m >>= f) s t).0 ≢ panic
  bind-safe m f s t first second = elim (Result-cases ((m s t).0)) [
    | inl (a, e) ↦ rw e (second a e)
    | inr (inl (error, e)) ↦ rw e (λ p. cc)
    | inr (inr e) ↦ absurd (first e)
  ]
