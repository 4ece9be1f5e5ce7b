-- ===== src/Manifest/Error/Decides.antt =====
-- What a fallible step decides: it succeeds exactly where a condition holds, and then with a result
-- of which something is known.
use kube_frontend_forge_cont.Common.{Bool, true, false, ◌≡◌, refl, ◌↔◌, if◌then◌else◌}
use kube_frontend_forge_cont.Manifest.Error.{ManifestRenderError, Result, ok, err, ◌>>=◌, ◌>>◌}

pub data Decides {A : Type 0} (P : Type 0) (Q : A → Type 0) : Result A → Type 0 where
  accepts : {a : A} → P → Q a → Decides P Q (ok a)
  rejects : {e : ManifestRenderError} → ¬ P → Decides P Q (err e)

module _ {A : Type 0} {P : Type 0} {Q : A → Type 0} where
  pub of_iff : {P' : Type 0} {r : Result A} → (P → P') → (P' → P) → Decides P Q r → Decides P' Q r
  of_iff f g (accepts p q) = accepts (f p) q
  of_iff f g (rejects n) = rejects (λ p. n (g p))

  pub weaken_by :
      {Q' : A → Type 0} {r : Result A} → ((a : A) → P → Q a → Q' a) → Decides P Q r → Decides P Q' r
  weaken_by f (accepts p q) = accepts p (f _ p q)
  weaken_by f (rejects n) = rejects n

module _ {A : Type 0} {P : Type 0} {Q : A → Type 0} where
  infixl 1 ◌⟫◌
  pub ◌⟫◌ :
      {B : Type 0} {R : Type 0} {S : B → Type 0} {r : Result A} {f : A → Result B}
      → Decides P Q r
      → ((a : A) → P → Q a → Decides R S (f a))
      → Decides (P × R) S (r >>= f)
  unfolding ◌>>=◌
  accepts {a} p q ⟫ k = of_iff (λ s. (p, s)) (λ (_, s). s) (k a p q)
  rejects n ⟫ k = rejects (λ (p, _). n p)

  pub unless :
      (b : Bool) (e : ManifestRenderError) {r : Result A}
      → Decides P Q r
      → Decides ((b ≡ false) × P) Q (if b then err e else r)
  unless true e d = rejects (λ (h, _). cc)
  unless false e d = of_iff (λ p. (refl, p)) (λ (_, p). p) d

  pub provided :
      (b : Bool) (e : ManifestRenderError) {r : Result A}
      → Decides P Q r
      → Decides ((b ≡ true) × P) Q (if b then r else err e)
  provided true e d = of_iff (λ p. (refl, p)) (λ (_, p). p) d
  provided false e d = rejects (λ (h, _). cc)

  -- The condition of a step that succeeds holds, and the other way round.
  pub of_ok : {a : A} → Decides P Q (ok a) → P × Q a
  of_ok (accepts p q) = (p, q)

  pub of_condition : {r : Result A} → Decides P Q r → P → (a : A) × (r ≡ ok a) × Q a
  of_condition (accepts {a} p q) h = (a, refl, q)
  of_condition (rejects n) h = absurd (n h)

infixl 1 ◌⟫>◌
pub ◌⟫>◌ :
    {A B : Type 0} {P R : Type 0} {Q : A → Type 0} {S : B → Type 0} {r : Result A} {s : Result B}
    → Decides P Q r
    → (P → Decides R S s)
    → Decides (P × R) S (r >> s)
unfolding ◌>>◌
accepts p q ⟫> k = of_iff (λ s. (p, s)) (λ (_, s). s) (k p)
rejects n ⟫> k = rejects (λ (p, _). n p)

-- A value under a test.
pub test :
    {A : Type 0} (b : Bool) (e : ManifestRenderError) (x : A)
    → Decides (b ≡ true) (λ y. y ≡ x) (if b then ok x else err e)
test true e x = accepts refl refl
test false e x = rejects (λ h. cc)

pub test_not :
    (b : Bool) (e : ManifestRenderError)
    → Decides (b ≡ false) (λ (_ : Unit {0}). Unit {0}) (if b then err e else ok tt)
test_not true e = rejects (λ h. cc)
test_not false e = accepts refl tt

abbrev pub IsOk {ℓ} : {A : Type ℓ} → Result A → Type 0
IsOk (ok x) = Unit
IsOk (err e) = ⊥

pub IsOk-iff :
    {A : Type 0} {P : Type 0} {Q : A → Type 0} {r : Result A} → Decides P Q r → IsOk r ↔ P
IsOk-iff (accepts p q) = (λ _. p, λ _. tt)
IsOk-iff (rejects n) = (λ h. absurd h, λ p. n p)
