-- ===== src/Controller/Calls/Meets.antt =====
-- What holds of every call that a program can make, and of every result that it can have, whatever
-- the API server answers. What holds may speak of the answers that were given: `said` is any
-- relation, and the program goes on with each answer that it relates to the call. As nothing is known
-- of `said`, an answer in a property is one that the program was given before.
use mathlib.Core.Path.{subst}
use kube_frontend_forge_cont.Common.{Option, none, some, ◌≡◌, refl}
use kube_frontend_forge_cont.Controller.Calls.{
  Call, Reply, KubeError, Error, Answer, ok, err, Prog, done, fail, call, ◌>>=◌, ◌>>◌, or_fail,
  request, need,
}

-- The answers that the API server gives to calls.
abbrev pub Answers : Type 1
Answers = (c : Call) → Answer (Reply c) → Type 0

-- No result is singled out.
abbrev pub Any : {A : Type 0} → A → Type 0
Any a = Unit

-- Every call satisfies `P`, every result satisfies `Q`; a failure ends the program.
unfoldable pub Meets : {A : Type 0} → Answers → (Call → Type 0) → (A → Type 0) → Prog A → Type 0
Meets said P Q (done a) = Q a
Meets said P Q (fail e) = Unit
Meets said P Q (call c k) = P c × ((r : Answer (Reply c)) → said c r → Meets said P Q (k r))

module _ (said : Answers) where
  pub Meets->>= :
      {A B : Type 0} (P : Call → Type 0) (Q : A → Type 0) (R : B → Type 0) (m : Prog A)
      (f : A → Prog B)
      → Meets said P Q m
      → ((a : A) → Q a → Meets said P R (f a))
      → Meets said P R (m >>= f)
  unfolding Meets ◌>>=◌
  Meets->>= P Q R (done a) f h g = g a h
  Meets->>= P Q R (fail e) f h g = tt
  Meets->>= P Q R (call c k) f (h, hs) g = (h, λ r s. Meets->>= P Q R (k r) f (hs r s) g)

  Meets-or_fail :
      {A : Type 0} (P : Call → Type 0) (Q : A → Type 0) (e : KubeError → Error) (r : Answer A)
      → ((a : A) → r ≡ ok a → Q a)
      → Meets said P Q (or_fail e r)
  unfolding Meets or_fail
  Meets-or_fail P Q e (ok a) h = h a refl
  Meets-or_fail P Q e (err x) h = tt

  -- The result of a request is the answer that was given.
  pub Meets-reply :
      (P : Call → Type 0) (c : Call) (e : KubeError → Error)
      → P c
      → Meets said P (λ a. said c (ok a)) (request c e)
  unfolding Meets request
  Meets-reply P c e h =
      (h, λ r s. Meets-or_fail P (λ a. said c (ok a)) e r (λ a same. subst (said c) same s))

  pub Meets-request :
      (P : Call → Type 0) (c : Call) (e : KubeError → Error)
      → P c
      → Meets said P (λ _. Unit) (request c e)
  unfolding Meets request
  Meets-request P c e h = (h, λ r s. Meets-or_fail P (λ _. Unit) e r (λ _ _. tt))

  pub Meets-need :
      {A : Type 0} (P : Call → Type 0) (o : Option A) (e : Error)
      → Meets said P (λ a. o ≡ some a) (need o e)
  unfolding Meets need
  Meets-need P none e = tt
  Meets-need P (some a) e = refl

  -- What holds of every call may be weakened, and so may what holds of the results.
  pub Meets-imp :
      {A : Type 0} (P P' : Call → Type 0) (Q Q' : A → Type 0) (m : Prog A)
      → ((c : Call) → P c → P' c)
      → ((a : A) → Q a → Q' a)
      → Meets said P Q m
      → Meets said P' Q' m
  unfolding Meets
  Meets-imp P P' Q Q' (done a) f g h = g a h
  Meets-imp P P' Q Q' (fail e) f g h = tt
  Meets-imp P P' Q Q' (call c k) f g (h, hs) =
      (f c h, λ r s. Meets-imp P P' Q Q' (k r) f g (hs r s))

  pub Meets-done :
      {A : Type 0} (P : Call → Type 0) (Q : A → Type 0) (a : A) → Q a → Meets said P Q (done a)
  unfolding Meets
  Meets-done P Q a h = h

  pub Meets-fail :
      {A : Type 0} (P : Call → Type 0) (Q : A → Type 0) (e : Error) → Meets said P Q (fail e)
  unfolding Meets
  Meets-fail P Q e = tt

  pub Meets-call :
      {A : Type 0} (P : Call → Type 0) (Q : A → Type 0) (c : Call) (k : Answer (Reply c) → Prog A)
      → P c
      → ((r : Answer (Reply c)) → said c r → Meets said P Q (k r))
      → Meets said P Q (call c k)
  unfolding Meets
  Meets-call P Q c k h hs = (h, hs)

  -- A program that is run after another, whose result says nothing.
  pub Meets->> :
      {A B : Type 0} (P : Call → Type 0) (R : B → Type 0) (m : Prog A) (f : Prog B)
      → Meets said P (λ _. Unit) m
      → Meets said P R f
      → Meets said P R (m >> f)
  unfolding ◌>>◌
  Meets->> P R m f h g = Meets->>= P (λ _. Unit) R m (λ _. f) h (λ _ _. g)
