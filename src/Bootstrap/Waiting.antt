-- ===== src/Bootstrap/Waiting.antt =====
-- The loop of `acquire_lock` ends, and gives up no sooner than it was told to.
use musts.Base.{
  ℕ, zero, suc, ◌+◌, ◌*◌, ◌/◌, ◌≤◌, ◌<◌, ◌≡◌, refl, ◌∙◌, ◌⊎◌, inl, inr, arith, leb, Bool-cases,
}
use musts.Bootstrap.{
  Attempt, locked, would_block, failed, Acquired, held, lock_busy, io, acquire_from, acquire_lock,
  lock_poll, rounds,
}

module _ (attempt : ℕ → Attempt) (now : ℕ → ℕ) (start : ℕ) where
  -- the clock at a round, where each sleep takes at least `LOCK_POLL`
  now_at :
      ((k : ℕ) → now k + lock_poll ≤ now (suc k)) → start ≤ now 0 → (k : ℕ) → start + k * 20 ≤ now k
  now_at sleeps begun zero = omega (arith, begun)
  now_at sleeps begun (suc k) = omega (arith, sleeps k, now_at sleeps begun k)

  -- the ways in which the loop ends, from the round `k` on, within `fuel` rounds
  abbrev pub Ends : ℕ → ℕ → ℕ → Acquired → Type 0
  Ends deadline fuel k r =
      ((j : ℕ) × (r ≡ held j) × (attempt j ≡ locked) × (j < fuel + k))
      ⊎ ((j : ℕ) × (r ≡ lock_busy j)
          × (attempt j ≡ would_block)
          × (deadline ≤ now j)
          × (j < fuel + k))
      ⊎ ((j : ℕ) × (r ≡ io) × (attempt j ≡ failed) × (j < fuel + k))

  Attempt-cases : (a : Attempt) → (a ≡ locked) ⊎ (a ≡ would_block) ⊎ (a ≡ failed)
  Attempt-cases locked = inl refl
  Attempt-cases would_block = inr (inl refl)
  Attempt-cases failed = inr (inr refl)

  later :
      (deadline fuel k : ℕ) (r r' : Acquired)
      → r' ≡ r
      → Ends deadline fuel (suc k) r
      → Ends deadline (suc fuel) k r'
  later deadline fuel k r r' same (inl (j, e, a, below)) =
      inl (j, same ∙ e, a, omega (arith, below))
  later deadline fuel k r r' same (inr (inl (j, e, a, late, below))) =
      inr (inl (j, same ∙ e, a, late, omega (arith, below)))
  later deadline fuel k r r' same (inr (inr (j, e, a, below))) =
      inr (inr (j, same ∙ e, a, omega (arith, below)))

  acquire_from-Ends :
      (deadline : ℕ)
      → ((k : ℕ) → now k + lock_poll ≤ now (suc k))
      → start ≤ now 0
      → (fuel k : ℕ) → deadline + 20 ≤ start + (fuel + k) * 20
      → 0 < fuel
      → Ends deadline fuel k (acquire_from attempt now deadline fuel k)
  unfolding acquire_from
  acquire_from-Ends deadline sleeps begun zero k enough more = absurd (omega arith)
  acquire_from-Ends deadline sleeps begun (suc fuel) k enough more =
      elim (Attempt-cases (attempt k)) [
        | inl got ↦ inl (k, ground (arith, got), got, omega arith)
        | inr (inr broken) ↦ inr (inr (k, ground (arith, broken), broken, omega arith))
        | inr (inl busy) ↦ elim (Bool-cases (leb deadline (now k))) [
          | inl late ↦
              inr (inl (k, ground (arith, busy, late), busy, ground (arith, late), omega arith))
          | inr early ↦
              later deadline fuel k (acquire_from attempt now deadline fuel (suc k))
                (acquire_from attempt now deadline (suc fuel) k) (ground (arith, busy, early))
                (acquire_from-Ends deadline sleeps begun fuel (suc k) (omega arith)
                  (ground (arith, early, now_at sleeps begun k)))
        ]
      ]

  -- Where a sleep takes at least 20 milliseconds, and the clock does not read before the start,
  -- `acquire_lock` ends within a round for each 20 milliseconds of the wait and two more: it has the
  -- lock, or the lock was busy at a time when the whole wait was over, or an attempt failed.
  pub acquire_lock-Ends :
      (wait : ℕ)
      → ((k : ℕ) → now k + lock_poll ≤ now (suc k))
      → start ≤ now 0
      → Ends (start + wait) (rounds wait) 0 (acquire_lock attempt now start wait)
  unfolding acquire_lock rounds
  acquire_lock-Ends wait sleeps begun =
      acquire_from-Ends (start + wait) sleeps begun (wait / 20 + 2) 0 (omega arith) (omega arith)
