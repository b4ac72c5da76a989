-- ===== src/Prelude/Exec.antt =====
-- Python code that changes a state and may raise. What was written before an exception stays
-- written, so the state comes back beside the exception too.
use mathlib.Core.Path.{◌≡◌, refl, ap}
use mathlib.Core.Logic.{◌⊎◌, inl, inr}
use mathlib.Core.Bool.{Bool, true, false}
use mathlib.Core.Option.{Option, none, some}

pub data Outcome {ℓ} (E A : Type ℓ) : Type ℓ where
  returned : A → Outcome E A
  raised : E → Outcome E A

abbrev pub Exec {ℓ} : Type ℓ → Type ℓ → Type ℓ → Type ℓ
Exec E S A = S → Outcome E A × S

module _ {ℓ} {E S A : Type ℓ} where
  abbrev pub pure : A → Exec E S A
  pure a s = (returned a, s)

  abbrev pub raise : E → Exec E S A
  raise e s = (raised e, s)

  abbrev pub gets : (S → A) → Exec E S A
  gets f s = (returned (f s), s)

  abbrev pub require : Option A → E → Exec E S A
  require none e s = (raised e, s)
  require (some a) e s = (returned a, s)

abbrev pub raise_if {ℓ} : {E S : Type ℓ} → Bool → E → Exec E S (Unit {ℓ})
raise_if true e s = (raised e, s)
raise_if false e s = (returned tt, s)

abbrev pub modify {ℓ} : {E S : Type ℓ} → (S → S) → Exec E S (Unit {ℓ})
modify f s = (returned tt, f s)

infixl 5 ◌>>=◌ ◌>>◌
abbrev pub ◌>>=◌ {ℓ} : {E S A B : Type ℓ} → Exec E S A → (A → Exec E S B) → Exec E S B
◌>>=◌ m f s = let (r, s') = m s in elim r [ returned a ↦ f a s' | raised e ↦ (raised e, s') ]

abbrev pub ◌>>◌ {ℓ} : {E S A B : Type ℓ} → Exec E S A → Exec E S B → Exec E S B
m >> n = m >>= λ _. n

-- The end of `async with conn.transaction()`: an exception rolls everything back.
unfoldable pub close {ℓ} : {E S A : Type ℓ} → S → Outcome E A × S → Outcome E A × S
close before (returned a, s) = (returned a, s)
close before (raised e, s) = (raised e, before)

unfoldable pub transaction {ℓ} : {E S A : Type ℓ} → Exec E S A → Exec E S A
unfolding close
transaction body s = close s (body s)

pub Outcome-cases {ℓ} :
    {E A : Type ℓ} (r : Outcome E A) → ((a : A) × (r ≡ returned a)) ⊎ ((e : E) × (r ≡ raised e))
Outcome-cases (returned a) = inl (a, refl)
Outcome-cases (raised e) = inr (e, refl)

elim_Outcome-same {ℓ} :
    {E S A B : Type ℓ} (r : Outcome E A) (s : S) (f g : A → Exec E S B)
    → ((a : A) → r ≡ returned a → f a s ≡ g a s)
    → ((λ (t : S). (r, t)) >>= f) s ≡ ((λ (t : S). (r, t)) >>= g) s
elim_Outcome-same (returned a) s f g h = h a refl
elim_Outcome-same (raised e) s f g h = refl

-- Two continuations that agree on what the first part returns
pub >>=-same {ℓ} :
    {E S A B : Type ℓ} (m : Exec E S A) (f g : A → Exec E S B) (s : S)
    → ((a : A) → (m s).0 ≡ returned a → f a (m s).1 ≡ g a (m s).1)
    → (m >>= f) s ≡ (m >>= g) s
>>=-same m f g s h = elim_Outcome-same (m s).0 (m s).1 f g h

-- Two first parts that agree at a state
pub same->>= {ℓ} :
    {E S A B : Type ℓ} (m n : Exec E S A) (f : A → Exec E S B) (s : S)
    → m s ≡ n s
    → (m >>= f) s ≡ (n >>= f) s
same->>= m n f s h = ap (λ out. ((λ t. out) >>= f) s) h

-- A requirement leaves the state alone.
pub require-same {ℓ} : {E S A : Type ℓ} (o : Option A) (e : E) (s : S) → (require o e s).1 ≡ s
require-same none e s = refl
require-same (some a) e s = refl

elim_Outcome-returned {ℓ} :
    {E S A B : Type ℓ} (r : Outcome E A) (s t : S) (f : A → Exec E S B) (b : B)
    → ((λ (u : S). (r, u)) >>= f) s ≡ (returned b, t)
    → (a : A) × (r ≡ returned a) × (f a s ≡ (returned b, t))
elim_Outcome-returned (returned a) s t f b h = (a, refl, h)
elim_Outcome-returned (raised e) s t f b h = absurd (cc)

-- When a sequence returns, its first part did.
pub >>=-returned {ℓ} :
    {E S A B : Type ℓ} (m : Exec E S A) (f : A → Exec E S B) (s t : S) (b : B)
    → (m >>= f) s ≡ (returned b, t)
    → (a : A) × ((m s).0 ≡ returned a) × (f a (m s).1 ≡ (returned b, t))
>>=-returned m f s t b h = elim_Outcome-returned (m s).0 (m s).1 t f b h

pub raise_if-returned {ℓ} :
    {E S : Type ℓ} (b : Bool) (e : E) (s : S) (u : Unit {ℓ})
    → (raise_if b e s).0 ≡ returned u
    → b ≡ false
raise_if-returned true e s u h = absurd (cc)
raise_if-returned false e s u h = refl

pub raise_if-same {ℓ} : {E S : Type ℓ} (b : Bool) (e : E) (s : S) → (raise_if b e s).1 ≡ s
raise_if-same true e s = refl
raise_if-same false e s = refl

elim_Outcome-holds {ℓ κ} :
    {E S A B : Type ℓ} (P : S → Type κ) (r : Outcome E A) (s : S) (f : A → Exec E S B)
    → P s
    → ((a : A) → r ≡ returned a → P (f a s).1)
    → P (((λ (t : S). (r, t)) >>= f) s).1
elim_Outcome-holds P (returned a) s f h k = k a refl
elim_Outcome-holds P (raised e) s f h k = h

-- What a sequence leaves, where its first part and the rest leave it
pub >>=-holds {ℓ κ} :
    {E S A B : Type ℓ} (P : S → Type κ) (m : Exec E S A) (f : A → Exec E S B) (s : S)
    → P (m s).1
    → ((a : A) → (m s).0 ≡ returned a → P (f a (m s).1).1)
    → P ((m >>= f) s).1
>>=-holds P m f s = elim_Outcome-holds P (m s).0 (m s).1 f
