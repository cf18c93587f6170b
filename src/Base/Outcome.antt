-- ===== src/Base/Outcome.antt =====
-- The outcome of Rust code that returns a `Result` and may panic.
use lol_html.Prelude.{
  ◌≡◌, refl, ◌⊎◌, inl, inr, Option, none, some, Bool, true, false, if◌then◌else◌,
}

pub data Outcome {ℓ κ} (E : Type ℓ) (A : Type κ) : Type (ℓ ⊔ κ) where
  ok : A → Outcome E A
  err : E → Outcome E A
  panic : Outcome E A

infixl 5 ◌>>=◌
unfoldable pub ◌>>=◌ {ℓ κ ι} :
    {E : Type ℓ} {A : Type κ} {B : Type ι} → Outcome E A → (A → Outcome E B) → Outcome E B
ok a >>= f = f a
err e >>= f = err e
panic >>= f = panic

-- `expect` and `unreachable!` on a missing value.
abbrev pub expect {ℓ κ} : {E : Type ℓ} {A : Type κ} → Option A → Outcome E A
expect none = panic
expect (some a) = ok a

abbrev pub map_err {ℓ κ ι} :
    {E : Type ℓ} {F : Type κ} {A : Type ι} → (E → F) → Outcome E A → Outcome F A
map_err f (ok a) = ok a
map_err f (err e) = err (f e)
map_err f panic = panic

pub bind-eq-ok {ℓ κ ι} :
    {E : Type ℓ} {A : Type κ} {B : Type ι} (m : Outcome E A) (f : A → Outcome E B) {b : B}
    → (m >>= f) ≡ ok b
    → (a : A) × (m ≡ ok a) × (f a ≡ ok b)
unfolding ◌>>=◌
bind-eq-ok (ok a) f h = (a, refl, h)
bind-eq-ok (err e) f h = cc
bind-eq-ok panic f h = cc

pub Outcome-cases {ℓ κ} :
    {E : Type ℓ} {A : Type κ} (m : Outcome E A)
    → ((a : A) × (m ≡ ok a)) ⊎ ((e : E) × (m ≡ err e)) ⊎ (m ≡ panic)
Outcome-cases (ok a) = inl (a, refl)
Outcome-cases (err e) = inr (inl (e, refl))
Outcome-cases panic = inr (inr refl)

pub bind_assoc {ℓ κ ι ο} :
    {E : Type ℓ} {A : Type κ} {B : Type ι} {C : Type ο} (m : Outcome E A) (f : A → Outcome E B)
    (g : B → Outcome E C)
    → ((m >>= f) >>= g) ≡ (m >>= λ a. f a >>= g)
unfolding ◌>>=◌
bind_assoc (ok a) f g = refl
bind_assoc (err e) f g = refl
bind_assoc panic f g = refl

pub bind_congr {ℓ κ ι} :
    {E : Type ℓ} {A : Type κ} {B : Type ι} (m : Outcome E A) (f g : A → Outcome E B)
    → ((a : A) → f a ≡ g a)
    → (m >>= f) ≡ (m >>= g)
unfolding ◌>>=◌
bind_congr (ok a) f g h = h a
bind_congr (err e) f g h = refl
bind_congr panic f g h = refl

pub ok-injective {ℓ κ} :
    {E : Type ℓ} {A : Type κ} {a b : A} → ◌≡◌ {A = Outcome E A} (ok a) (ok b) → a ≡ b
ok-injective e = cc

-- What holds of the value, where there is one.
abbrev pub Ensures : {E A : Type 0} → (A → Type 0) → Outcome E A → Type 0
Ensures P (ok a) = P a
Ensures P (err e) = Unit
Ensures P panic = Unit

-- There is no panic, and what holds of the value or of the error.
abbrev pub Safely : {E A : Type 0} → (A → Type 0) → (E → Type 0) → Outcome E A → Type 0
Safely P Q (ok a) = P a
Safely P Q (err e) = Q e
Safely P Q panic = ⊥

module _ {E A B : Type 0} (P : A → Type 0) (R : B → Type 0) where
  pub Ensures-bind :
      (m : Outcome E A) (f : A → Outcome E B)
      → Ensures P m
      → ((a : A) → P a → Ensures R (f a))
      → Ensures R (m >>= f)
  unfolding ◌>>=◌
  Ensures-bind (ok a) f h k = k a h
  Ensures-bind (err e) f h k = tt
  Ensures-bind panic f h k = tt

  pub Safely-bind :
      (Q : E → Type 0) (m : Outcome E A) (f : A → Outcome E B)
      → Safely P Q m
      → ((a : A) → P a → Safely R Q (f a))
      → Safely R Q (m >>= f)
  unfolding ◌>>=◌
  Safely-bind Q (ok a) f h k = k a h
  Safely-bind Q (err e) f h k = h
  Safely-bind Q panic f h k = elim h [ ]

pub Ensures-any : {E A : Type 0} (m : Outcome E A) → Ensures (λ _. Unit {0}) m
Ensures-any (ok a) = tt
Ensures-any (err e) = tt
Ensures-any panic = tt

pub Ensures-ok :
    {E A : Type 0} (P : A → Type 0) (m : Outcome E A) {a : A} → Ensures P m → m ≡ ok a → P a
Ensures-ok P m h e = rw e at h

-- A test is safe where both of its branches are, each under the test's answer.
pub Safely-if :
    {E A : Type 0} (P : A → Type 0) (Q : E → Type 0) (b : Bool) (x y : Outcome E A)
    → (b ≡ true → Safely P Q x)
    → (b ≡ false → Safely P Q y)
    → Safely P Q (if b then x else y)
Safely-if P Q true x y f g = f refl
Safely-if P Q false x y f g = g refl

pub Safely-expect :
    {E A : Type 0} (Q : E → Type 0) {o : Option A} {a : A}
    → o ≡ some a
    → Safely (λ (x : A). Unit {0}) Q (expect o)
Safely-expect Q e = rw e tt

pub Safely-err :
    {E A : Type 0} (P : A → Type 0) (Q R : E → Type 0) (m : Outcome E A)
    → Safely P Q m
    → ((e : E) → Q e → R e)
    → Safely P R m
Safely-err P Q R (ok a) h k = h
Safely-err P Q R (err e) h k = k e h
Safely-err P Q R panic h k = elim h [ ]

pub map_err-ok {ℓ κ ι} :
    {E : Type ℓ} {F : Type κ} {A : Type ι} (f : E → F) (m : Outcome E A) {a : A}
    → map_err f m ≡ ok a
    → m ≡ ok a
map_err-ok f (ok x) e = rw (ok-injective e)
map_err-ok f (err x) e = absurd cc
map_err-ok f panic e = absurd cc
