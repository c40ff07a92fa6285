-- ===== src/Transport/Rules.antt =====
-- Rules for the computations of the transport: what holds when one returns.
use go_data_transfer.Base.{◌≡◌, refl, ap, List, [], ◌∷◌, Option, none, some}
use go_data_transfer.Transport.Extension.{ExtensionData}
use go_data_transfer.Transport.World.{Act, ◌>>=◌, GsCall, Transport, go_on, tell_all}
use go_data_transfer.Errors.{Err}

module _ {S A : Type 0} where
  -- If it returns, the state that it returns has the property.
  abbrev pub Holds : (S → Type 0) → Option (S × A) → Type 0
  Holds P none = Unit
  Holds P (some (s, a)) = P s

  -- It returns, and the state and the value that it returns have the property.
  abbrev pub Returns : (S → A → Type 0) → Option (S × A) → Type 0
  Returns P none = ⊥
  Returns P (some (s, a)) = P s a

-- What a step returns is what the rest goes on from.
pub bind_returns :
    {S A B : Type 0} (m : Act S A) (f : A → Act S B) (s s' : S) (a : A)
    → m s ≡ some (s', a)
    → (m >>= f) s ≡ f a s'
bind_returns {S = S} {A = A} {B = B} m f s s' a h = ap (λ (r : Option (S × A)). rest r) h
  where
    rest : Option (S × A) → Option (S × B)
    rest r = elim r [ none ↦ none | some (s', a) ↦ f a s' ]

pub Returns-bind :
    {S A B : Type 0} (P : S → A → Type 0) (Q : S → B → Type 0) (m : Act S A) (f : A → Act S B)
    (s : S)
    → Returns P (m s)
    → ((s' : S) (a : A) → P s' a → Returns Q (f a s'))
    → Returns Q ((m >>= f) s)
Returns-bind {S = S} {A = A} P Q m f s h k = go (m s) h
  where
    go :
        (r : Option (S × A))
        → Returns P r
        → Returns Q (elim r [ none ↦ none | some (s', a) ↦ f a s' ])
    go none h = absurd h
    go (some (s', a)) h = k s' a h

pub Holds-bind :
    {S A B : Type 0} (P Q : S → Type 0) (m : Act S A) (f : A → Act S B) (s : S)
    → Holds P (m s)
    → ((s' : S) (a : A) → P s' → Holds Q (f a s'))
    → Holds Q ((m >>= f) s)
Holds-bind {S = S} {A = A} P Q m f s h k = go (m s) h
  where
    go : (r : Option (S × A)) → Holds P r → Holds Q (elim r [ none ↦ none | some (s', a) ↦ f a s' ])
    go none h = tt
    go (some (s', a)) h = k s' a h

pub Holds-go_on :
    {S : Type 0} (P : S → Type 0) (e : Option Err) (m : Act S (Option Err)) (s : S)
    → P s
    → Holds P (m s)
    → Holds P (go_on e m s)
Holds-go_on P (some x) m s h k = h
Holds-go_on P none m s h k = k

-- The calls with one more for each element.
abbrev pub told :
    {W : Type 0}
    → (ExtensionData W → GsCall W)
    → List (ExtensionData W)
    → List (GsCall W)
    → List (GsCall W)
told f [] calls = calls
told f (x ∷ xs) calls = told f xs (f x ∷ calls)

pub tell_all-told :
    {W E : Type 0} (f : ExtensionData W → GsCall W) (xs : List (ExtensionData W))
    (t : Transport W E)
    → tell_all f xs t ≡ some (record t { gs_calls = told f xs t.gs_calls }, tt)
unfolding tell_all
tell_all-told f [] t = refl
tell_all-told f (x ∷ xs) t = tell_all-told f xs (record t { gs_calls = f x ∷ t.gs_calls })
