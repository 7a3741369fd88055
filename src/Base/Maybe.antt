-- ===== src/Base/Maybe.antt =====
-- Chains of Option (a `raise` anywhere ends the chain), and maps that may fail over tuples and
-- optional values, with what brings a round trip of the parts to the whole.
use mathlib.Core.Path.{◌≡◌, refl, ap}
use mathlib.Core.Option.{Option, none, some}
use mathlib.Core.List.{List, [], ◌∷◌, map}
use swimming_in_zurich.Base.Lists.{All}

infixl 5 ◌>>=◌ ◌>>◌
abbrev pub ◌>>=◌ {ℓ κ} : {A : Type ℓ} {B : Type κ} → Option A → (A → Option B) → Option B
none >>= f = none
some a >>= f = f a

abbrev pub ◌>>◌ {ℓ κ} : {A : Type ℓ} {B : Type κ} → Option A → Option B → Option B
m >> k = m >>= λ _. k

-- Inversion of a chain that succeeds.
pub >>=-eq-some {ℓ κ} :
    {A : Type ℓ} {B : Type κ} (m : Option A) (f : A → Option B) {b : B}
    → (m >>= f) ≡ some b
    → (a : A) × (m ≡ some a) × (f a ≡ some b)
>>=-eq-some none f h = absurd (cc h)
>>=-eq-some (some a) f h = (a, refl, h)

module _ {ℓ κ} {A : Type ℓ} {B : Type κ} where
  -- `f(x) if x is not None else None`
  abbrev pub if_given : (A → B) → Option A → Option B
  if_given f none = none
  if_given f (some a) = some (f a)

  -- The same for a function that may raise.
  abbrev pub if_given_try : (A → Option B) → Option A → Option (Option B)
  if_given_try f none = some none
  if_given_try f (some a) = f a >>= λ b. some (some b)

  -- `tuple(f(x) for x in xs)` for a function that may raise.
  unfoldable pub traverse : (A → Option B) → List A → Option (List B)
  traverse f [] = some []
  traverse f (x ∷ xs) = f x >>= λ y. traverse f xs >>= λ ys. some (y ∷ ys)

-- What holds of a value that is there.
abbrev pub Given {ℓ κ} : {A : Type ℓ} → (A → Type κ) → Option A → Type κ
Given P none = Unit
Given P (some a) = P a

-- No more than that there is a value.
abbrev pub Any {ℓ} : {A : Type ℓ} → A → Type 0
Any _ = Unit

pub Any-Given {ℓ} : {A : Type ℓ} (o : Option A) → Given Any o
Any-Given none = tt
Any-Given (some _) = tt

-- What a step yields, brought to the end of a chain.
pub >>=-Given {ℓ μ κ ν} :
    {A : Type ℓ} {B : Type μ} (Q : A → Type κ) (P : B → Type ν) (m : Option A) (f : A → Option B)
    → Given Q m
    → ((a : A) → Q a → Given P (f a))
    → Given P (m >>= f)
>>=-Given Q P none f h k = tt
>>=-Given Q P (some a) f h k = k a h

pub traverse-Given {ℓ μ κ} :
    {A : Type ℓ} {B : Type μ} (P : B → Type κ) (f : A → Option B)
    → ((a : A) → Given P (f a))
    → (xs : List A) → Given (All P) (traverse f xs)
unfolding traverse
traverse-Given P f each [] = tt
traverse-Given P f each (x ∷ xs) = >>=-Given P (All P) (f x) _ (each x) (λ y p.
    >>=-Given (All P) (All P) (traverse f xs) _ (traverse-Given P f each xs) (λ ys h. (p, h)))

pub if_given_try-Given {ℓ μ κ} :
    {A : Type ℓ} {B : Type μ} (P : B → Type κ) (f : A → Option B)
    → ((a : A) → Given P (f a))
    → (o : Option A) → Given (Given P) (if_given_try f o)
if_given_try-Given P f each none = tt
if_given_try-Given P f each (some a) = >>=-Given P (Given P) (f a) _ (each a) (λ b p. p)

module _ {ℓ μ κ} {A : Type ℓ} {B : Type μ} (f : B → Option A) (g : A → B) (P : A → Type κ)
    (back : (a : A) → P a → f (g a) ≡ some a) where
  pub traverse-map : (xs : List A) → All P xs → traverse f (map g xs) ≡ some xs
  unfolding traverse
  traverse-map [] h = refl
  traverse-map (x ∷ xs) h = rw (back x h.0, traverse-map xs h.1)

  pub if_given_try-if_given : (o : Option A) → Given P o → if_given_try f (if_given g o) ≡ some o
  if_given_try-if_given none h = refl
  if_given_try-if_given (some a) h = rw (back a h)

module _ {ℓ μ} {A : Type ℓ} {B : Type μ} (f : B → A) (g : A → B)
    (back : (a : A) → f (g a) ≡ a) where
  pub map-map_back : (xs : List A) → map f (map g xs) ≡ xs
  map-map_back [] = refl
  map-map_back (x ∷ xs) = rw (back x, map-map_back xs)

  pub if_given-if_given : (o : Option A) → if_given f (if_given g o) ≡ o
  if_given-if_given none = refl
  if_given-if_given (some a) = ap some (back a)

module _ {ℓ μ} {A : Type ℓ} {B : Type μ} (f : B → Option A) (g : A → B)
    (back : (a : A) → f (g a) ≡ some a) where
  pub traverse-map_all : (xs : List A) → traverse f (map g xs) ≡ some xs
  unfolding traverse
  traverse-map_all [] = refl
  traverse-map_all (x ∷ xs) = rw (back x, traverse-map_all xs)

  pub if_given_try-if_given_all : (o : Option A) → if_given_try f (if_given g o) ≡ some o
  if_given_try-if_given_all none = refl
  if_given_try-if_given_all (some a) = rw (back a)
