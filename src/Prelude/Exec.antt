-- ===== src/Prelude/Exec.antt =====
-- Kernel code over a state: a call comes back with a result and the new state, or it calls PANIC, or
-- it goes to sleep on a lock or semaphore that nobody holds open.

pub data Result {ℓ} (A : Type ℓ) : Type ℓ where
  done : A → Result A
  panic : Result A
  sleep : Result A

abbrev pub M {ℓ} : Type ℓ → Type ℓ → Type ℓ
M S A = S → Result (A × S)

module _ {ℓ} {S : Type ℓ} where
  abbrev pub pure : {A : Type ℓ} → A → M S A
  pure a s = done (a, s)

  abbrev pub modify : (S → S) → M S (Unit {ℓ})
  modify f s = done (tt, f s)

  infixl 5 ◌>>=◌ ◌>>◌
  abbrev pub ◌>>=◌ : {A B : Type ℓ} → M S A → (A → M S B) → M S B
  ◌>>=◌ m f s = elim (m s) [ done (a, t) ↦ f a t | panic ↦ panic | sleep ↦ sleep ]

  abbrev pub ◌>>◌ : {B : Type ℓ} → M S (Unit {ℓ}) → M S B → M S B
  m >> k = m >>= λ _. k
