-- ===== src/Python/Exec.antt =====
-- Methods that print or call a service, and may raise: what was done before a raise stays done.
use kubefrog_kvmserver.Prelude.{◌≡◌, refl}
use kubefrog_kvmserver.Python.Errors.{Error, Result, ok, err}

abbrev pub Exec {ℓ} : Type ℓ → Type ℓ → Type ℓ
Exec S A = S → Result A × S

module _ {ℓ} {S A : Type ℓ} where
  abbrev pub pure : A → Exec S A
  pure a s = (ok a, s)

  abbrev pub lift : Result A → Exec S A
  lift r s = (r, s)

module _ {ℓ} {S A B : Type ℓ} where
  abbrev pub resume : Result A → (A → Exec S B) → Exec S B
  resume (ok a) f s = f a s
  resume (err e) f s = (err e, s)

  infixl 5 ◌>>=◌ ◌>>◌
  abbrev pub ◌>>=◌ : Exec S A → (A → Exec S B) → Exec S B
  ◌>>=◌ m f s = let (r, s') = m s in resume r f s'

  abbrev pub ◌>>◌ : Exec S A → Exec S B → Exec S B
  m >> n = m >>= λ _. n

module _ {ℓ} {S A B : Type ℓ} where
  -- A step that returned, and what came after it.
  pub resume-ok :
      (r : Result A) (f : A → Exec S B) (s : S) (b : B)
      → (resume r f s).0 ≡ ok b
      → (a : A) × (r ≡ ok a) × ((f a s).0 ≡ ok b)
  resume-ok (ok a) f s b h = (a, refl, h)
  resume-ok (err e) f s b h = cc

  -- The same, with the state at the end.
  pub resume-returned :
      (r : Result A) (f : A → Exec S B) (s t : S) (b : B)
      → resume r f s ≡ (ok b, t)
      → (a : A) × (r ≡ ok a) × (f a s ≡ (ok b, t))
  resume-returned (ok a) f s t b h = (a, refl, h)
  resume-returned (err e) f s t b h = cc

  -- A step that leaves the state alone keeps this so for raising calls.
  pub resume_silent :
      (r : Result A) (f : A → Exec S B) (s : S) (e : Error)
      → ((a : A) → (f a s).0 ≡ err e → (f a s).1 ≡ s)
      → (resume r f s).0 ≡ err e
      → (resume r f s).1 ≡ s
  resume_silent (ok a) f s e keep h = keep a h
  resume_silent (err _) f s e keep h = refl

  -- A last step that cannot raise, after one that leaves the state alone when it raises.
  pub resume_silent_last :
      (m : Result A × S) (g : A → B) (s : S) (e : Error)
      → ((e' : Error) → m.0 ≡ err e' → m.1 ≡ s)
      → (resume m.0 (λ a. pure (g a)) m.1).0 ≡ err e
      → (resume m.0 (λ a. pure (g a)) m.1).1 ≡ s
  resume_silent_last (ok a, t) g s e keep h = cc
  resume_silent_last (err e', t) g s e keep h = keep e' refl

  -- A last step that cannot raise leaves the state as it is, also if it is not reached.
  pub resume-pure : (r : Result A) (b : B) (s : S) → (resume r (λ a. pure b) s).1 ≡ s
  resume-pure (ok a) b s = refl
  resume-pure (err e) b s = refl
