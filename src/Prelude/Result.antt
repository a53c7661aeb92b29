-- ===== src/Prelude/Result.antt =====
-- Results of fallible code.
use mathlib.Core.Path.{◌≡◌, refl}
use mathlib.Core.Bool.{Bool, true, false}
use mathlib.Core.Logic.{◌⊎◌, inl, inr, ◌≢◌}
use mathlib.Core.List.{◌++◌}
use mathlib.Core.Option.{Option, none, some}
use d2p_migrator.Prelude.Tests.{Str, str}

-- By which class an error is told from others: `os.IsNotExist`, `errdefs.IsNotFound` and docker's
-- `IsErrNotFound`, `errdefs.IsAlreadyExists`, and a comparison with `io.EOF`. `fmt.Errorf` makes a plain error.
pub data Class : Type 0 where
  plain not_exist not_found already_exists eof : Class

-- The test of a class.
unfoldable pub is_class : Class → Class → Bool
is_class plain plain = true
is_class not_exist not_exist = true
is_class not_found not_found = true
is_class already_exists already_exists = true
is_class eof eof = true
is_class _ _ = false

-- An error by its class and its text.
pub record Error : Type 0 where
  pub class : Class
  pub text : Str

-- A call returns a value or an error, or it panics.
pub data Result {ℓ} (A : Type ℓ) : Type ℓ where
  ok : A → Result A
  err : Error → Result A
  panic : Result A

abbrev pub is_ok {ℓ} : {A : Type ℓ} → Result A → Bool
is_ok (ok _) = true
is_ok _ = false

pub is_ok-value {ℓ} : {A : Type ℓ} (r : Result A) → is_ok r ≡ true → (a : A) × (r ≡ ok a)
is_ok-value (ok a) h = (a, refl)
is_ok-value (err e) h = cc
is_ok-value panic h = cc

-- `fmt.Errorf` of a text that is written out.
abbrev pub errorf {ℓ} : {A : Type ℓ} → Str → Result A
errorf text = err (record { class = plain; text = text })

infixl 5 ◌>>=◌ ◌>>◌
abbrev pub ◌>>=◌ {ℓ κ} : {A : Type ℓ} {B : Type κ} → Result A → (A → Result B) → Result B
panic >>= next = panic
err error >>= next = err error
ok value >>= next = next value

abbrev pub ◌>>◌ {ℓ} : {B : Type ℓ} → Result (Unit {0}) → Result B → Result B
first >> next = first >>= λ _. next

-- `fmt.Errorf(text + "%v", err)` where a call fails.
abbrev pub wrap {ℓ} : {A : Type ℓ} → Str → Result A → Result A
wrap text (ok a) = ok a
wrap text (err e) = errorf (text ++ e.text)
wrap text panic = panic

-- A value that is read through a pointer, or an index: nil and out of range panic.
abbrev pub deref {ℓ} : {A : Type ℓ} → Option A → Result A
deref none = panic
deref (some a) = ok a

-- `%q` of a text in which nothing has to be escaped.
unfoldable pub quoted : Str → Str
unfolding str
quoted s = str "\"" ++ s ++ str "\""

pub Result-cases {ℓ} :
    {A : Type ℓ} (r : Result A)
    → ((a : A) × (r ≡ ok a)) ⊎ (((e : Error) × (r ≡ err e)) ⊎ (r ≡ panic))
Result-cases (ok a) = inl (a, refl)
Result-cases (err e) = inr (inl (e, refl))
Result-cases panic = inr (inr refl)

module _ {ℓ κ} {A : Type ℓ} {B : Type κ} where
  -- A sequence that has returned a value went through both of its parts.
  pub bind-ok :
      (r : Result A) (f : A → Result B) (b : B)
      → (r >>= f) ≡ ok b
      → (a : A) × (r ≡ ok a) × (f a ≡ ok b)
  bind-ok (ok a) f b h = (a, refl, h)
  bind-ok (err e) f b h = cc
  bind-ok panic f b h = cc

  -- A sequence does not panic where neither part does.
  pub bind-safe :
      (r : Result A) (f : A → Result B)
      → r ≢ panic
      → ((a : A) → r ≡ ok a → f a ≢ panic)
      → (r >>= f) ≢ panic
  bind-safe (ok a) f h k = k a refl
  bind-safe (err e) f h k = λ x. cc
  bind-safe panic f h k = λ x. h refl

  -- What holds of every error, and of what follows a value, holds of a sequence whose first part does not panic.
  pub bind-elim :
      (P : Result B → Type 0) (r : Result A) (f : A → Result B)
      → r ≢ panic
      → ((e : Error) → P (err e))
      → ((a : A) → r ≡ ok a → P (f a))
      → P (r >>= f)
  bind-elim P (ok a) f h fails k = k a refl
  bind-elim P (err e) f h fails k = fails e
  bind-elim P panic f h fails k = absurd (h refl)

module _ {ℓ} {A : Type ℓ} where
  pub ok-safe : (a : A) → ok a ≢ panic
  ok-safe a = λ p. cc

  pub wrap-ok : (text : Str) (r : Result A) (a : A) → wrap text r ≡ ok a → r ≡ ok a
  wrap-ok text (ok b) a h = h
  wrap-ok text (err e) a h = cc
  wrap-ok text panic a h = cc

  pub wrap-safe : (text : Str) (r : Result A) → r ≢ panic → wrap text r ≢ panic
  wrap-safe text (ok b) h = λ x. cc
  wrap-safe text (err e) h = λ x. cc
  wrap-safe text panic h = λ x. h refl
