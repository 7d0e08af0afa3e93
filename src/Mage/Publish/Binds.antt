-- ===== src/Mage/Publish/Binds.antt =====
-- Actions that are bound: what they give, and when two of them do the same.
use configmapsecrets.Prelude.{◌≡◌, refl, arith, ap, ◌∙◌}
use configmapsecrets.Runtime.{Result, ok, err, Error, Exec, ◌>>=◌, pure, resume}

-- When an action returns a value, this holds of the value.
abbrev pub Gives : {S A : Type 0} → (A → Type 0) → Exec S A → Type 0
Gives {S} {A} P m = (s : S) (a : A) → (m s).0 ≡ ok a → P a

module _ {S A B : Type 0} where
  resume-Gives :
      (P : B → Type 0) (r : Result Error A) (f : A → Exec S B) (s : S) (b : B)
      → ((a : A) → Gives P (f a))
      → (resume r f s).0 ≡ ok b
      → P b
  resume-Gives P (ok a) f s b h e = h a s b e
  resume-Gives P (err c) f s b h e = ground arith

  resume-Gives_from :
      (Q : A → Type 0) (P : B → Type 0) (r : Result Error A) (f : A → Exec S B) (s : S) (b : B)
      → ((a : A) → r ≡ ok a → Q a)
      → ((a : A) → Q a → Gives P (f a))
      → (resume r f s).0 ≡ ok b
      → P b
  resume-Gives_from Q P (ok a) f s b q h e = h a (q a refl) s b e
  resume-Gives_from Q P (err c) f s b q h e = ground arith

  pub bind-Gives :
      (P : B → Type 0) (m : Exec S A) (f : A → Exec S B)
      → ((a : A) → Gives P (f a))
      → Gives P (m >>= f)
  unfolding ◌>>=◌
  bind-Gives P m f h s b e = resume-Gives P (m s).0 f (m s).1 b h e

  resume_congr :
      (P : A → Type 0) (r : Result Error A) (f g : A → Exec S B) (s : S)
      → ((a : A) → r ≡ ok a → P a)
      → ((a : A) (t : S) → P a → f a t ≡ g a t)
      → resume r f s ≡ resume r g s
  resume_congr P (ok a) f g s h e = e a s (h a refl)
  resume_congr P (err c) f g s h e = refl

  -- What follows an action matters only on the values that it gives.
  pub bind_congr :
      (P : A → Type 0) (m : Exec S A) (f g : A → Exec S B) (s : S)
      → Gives P m
      → ((a : A) (t : S) → P a → f a t ≡ g a t)
      → (m >>= f) s ≡ (m >>= g) s
  unfolding ◌>>=◌
  bind_congr P m f g s h e = resume_congr P (m s).0 f g (m s).1 (h s) e

  pub bind_first :
      (m m' : Exec S A) (f : A → Exec S B) (s : S) → m s ≡ m' s → (m >>= f) s ≡ (m' >>= f) s
  unfolding ◌>>=◌
  bind_first m m' f s e = ap (λ x. resume x.0 f x.1) e

  pub pure_bind : (a : A) (f : A → Exec S B) (s : S) → (pure a >>= f) s ≡ f a s
  unfolding ◌>>=◌
  pure_bind a f s = refl

  pub bind_same :
      (m : Exec S A) (f g : A → Exec S B) (s : S)
      → ((a : A) (t : S) → f a t ≡ g a t)
      → (m >>= f) s ≡ (m >>= g) s
  bind_same m f g s e = bind_congr (λ _. Unit) m f g s (λ _ _ _. tt) (λ a t _. e a t)

  pub bind-Gives_from :
      (Q : A → Type 0) (P : B → Type 0) (m : Exec S A) (f : A → Exec S B)
      → Gives Q m
      → ((a : A) → Q a → Gives P (f a))
      → Gives P (m >>= f)
  unfolding ◌>>=◌
  bind-Gives_from Q P m f q h s b e = resume-Gives_from Q P (m s).0 f (m s).1 b (q s) h e

module _ {S A B C : Type 0} where
  resume_assoc :
      (r : Result Error A) (f : A → Exec S B) (g : B → Exec S C) (s : S)
      → resume r (λ a. f a >>= g) s ≡ resume (resume r f s).0 g (resume r f s).1
  unfolding ◌>>=◌
  resume_assoc (ok a) f g s = refl
  resume_assoc (err c) f g s = refl

  -- Two actions that begin alike
  pub bind_again :
      (m : Exec S A) (h : A → Exec S C) (f : A → Exec S B) (g : B → Exec S C) (s : S)
      → ((a : A) (t : S) → h a t ≡ (f a >>= g) t)
      → (m >>= h) s ≡ ((m >>= f) >>= g) s
  unfolding ◌>>=◌
  bind_again m h f g s e = bind_same m h (λ a. f a >>= g) s e ∙ resume_assoc (m s).0 f g (m s).1
