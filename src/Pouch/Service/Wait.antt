-- ===== src/Pouch/Service/Wait.antt =====
-- pouch/utils.go: how the wait for pouch's service ends.
use d2p_migrator.Prelude.{
  ℕ, zero, suc, ◌<◌, ◌≡◌, ◌≢◌, refl, ap, Bool, true, false, ◌∷◌, ◌⊎◌, inl, inr, arith,
}
use d2p_migrator.Prelude.Result.{Result, ok, panic, is_ok, Result-cases}
use d2p_migrator.Pouch.Service.{socket_addr, wait_rounds, wait_pouch_alive}
use d2p_migrator.World.{Host, Trace, net_dial}

-- The trace behind so many dials.
abbrev pub dials : ℕ → Trace → Trace
dials zero t = t
dials (suc n) t = dials n (net_dial socket_addr ∷ t)

module _ (host : Host) where
  -- Whether the `n`-th dial from here on succeeds.
  abbrev pub answered : ℕ → Trace → Bool
  answered n t = is_ok (host.net_dial (dials n t))

  -- The first dials all fail.
  abbrev pub AllFail : ℕ → Trace → Type 0
  AllFail zero t = Unit
  AllFail (suc n) t = (answered 1 t ≡ false) × AllFail n (net_dial socket_addr ∷ t)

  -- After `n` dials that fail, the wait ends: with success at one more dial that succeeds in time, and
  -- otherwise with an error, once the time is over.
  abbrev pub Ends : ℕ → Trace → Result (Unit {0}) × Trace → Type 0
  Ends rounds t (r, u) =
      (n : ℕ) × AllFail n t
      × (((r ≡ ok tt) × (n < rounds) × (answered (suc n) t ≡ true) × (u ≡ dials (suc n) t))
          ⊎ ((is_ok r ≡ false) × (r ≢ panic) × (n ≡ rounds) × (u ≡ dials n t)))

  Ends-step :
      (rounds : ℕ) (t : Trace) (r : Result (Unit {0})) (u : Trace)
      → answered 1 t ≡ false
      → Ends rounds (net_dial socket_addr ∷ t) (r, u)
      → Ends (suc rounds) t (r, u)
  Ends-step rounds t r u failed (n, fails, inl (good, lt, last, trace)) =
      (suc n, (failed, fails), inl (good, omega (arith, lt), last, trace))
  Ends-step rounds t r u failed (n, fails, inr (bad, calm, e, trace)) =
      (suc n, (failed, fails), inr (bad, calm, ap suc e, trace))

  module _ (safe : (t : Trace) → host.net_dial t ≢ panic) where
    wait_rounds-Ends : (rounds : ℕ) (t : Trace) → Ends rounds t (wait_rounds host rounds t)
    unfolding wait_rounds
    wait_rounds-Ends zero t = (0, tt, inr (refl, (λ p. ground (arith, p)), refl, refl))
    wait_rounds-Ends (suc rounds) t =
        elim (Result-cases (host.net_dial (net_dial socket_addr ∷ t))) [
          | inl (_, e) ↦
              (0, tt, inl (ground (arith, e), omega arith, ground (arith, e), ground (arith, e)))
          | inr (inl (_, e)) ↦
              let step : wait_rounds host (suc rounds) t
                  ≡ wait_rounds host rounds (net_dial socket_addr ∷ t) =
                rw e refl in
              let (r, u) = wait_rounds host rounds (net_dial socket_addr ∷ t) in
              rw step (
                Ends-step rounds t r u (ground (arith, e))
                  (wait_rounds-Ends rounds (net_dial socket_addr ∷ t)))
          | inr (inr e) ↦ absurd (safe (net_dial socket_addr ∷ t) e)
        ]

    -- The wait for pouch's service succeeds exactly at the first dial that succeeds, if that one returns before the time is
    -- over. If all dials that return in time fail, the wait ends with an error behind them. Dialling is assumed
    -- not to panic, how many dials return in time is the host's to say, and what the goroutine dials behind the
    -- end of the wait is left out.
    pub wait_pouch_alive-Ends : (t : Trace) → Ends (host.dial_rounds t) t (wait_pouch_alive host t)
    unfolding wait_pouch_alive
    wait_pouch_alive-Ends t = wait_rounds-Ends (host.dial_rounds t) t
