-- ===== src/Manager/Rules.antt =====
-- Rules for the computations of the manager of impl/impl.go: what holds when one returns, and that it
-- does not panic.
use go_data_transfer.Base.{◌≡◌, refl, ap, Option, none, some}
use go_data_transfer.Types.{ChannelId}
use go_data_transfer.Errors.{Err, not_found, ok, err}
use go_data_transfer.Channels.Internal.{ChannelState}
use go_data_transfer.Channels.Group.{Group}
use go_data_transfer.Channels.Ops.{get_by_id}
use go_data_transfer.Manager.World.{Manager, Step, ◌>>=◌, attempt, fetch}

module _ {ℓ} {g : Group} {A : Type ℓ} where
  -- It returns, and the state and the value that it returns have the property.
  abbrev pub Ends : (Manager g → A → Type 0) → Option (Manager g × A) → Type 0
  Ends P none = ⊥
  Ends P (some (s, a)) = P s a

  pub Ends-weaken :
      (P Q : Manager g → A → Type 0) (r : Option (Manager g × A))
      → ((s : Manager g) (a : A) → P s a → Q s a)
      → Ends P r
      → Ends Q r
  Ends-weaken P Q none f h = h
  Ends-weaken P Q (some (s, a)) f h = f s a h

  pub Ends-fetch :
      (P : Manager g → A → Type 0) (chid : ChannelId) (failed : Err → Step g A)
      (next : ChannelState → Step g A) (s : Manager g) (ch : ChannelState)
      → g.get_sync s.channels.store chid ≡ ok ch
      → Ends P (next ch s)
      → Ends P (fetch chid failed next s)
  unfolding get_by_id
  Ends-fetch P chid failed next s ch got h = rw (Ends, got, get_by_id) h

pub Ends-bind {ℓ κ} :
    {g : Group} {A : Type ℓ} {B : Type κ} (P : Manager g → A → Type 0) (Q : Manager g → B → Type 0)
    (m : Step g A) (f : A → Step g B) (s : Manager g)
    → Ends P (m s)
    → ((s' : Manager g) (a : A) → P s' a → Ends Q (f a s'))
    → Ends Q ((m >>= f) s)
Ends-bind {g = g} {A = A} P Q m f s h k = go (m s) h
  where
    go :
        (r : Option (Manager g × A))
        → Ends P r
        → Ends Q (elim r [ none ↦ none | some (s', a) ↦ f a s' ])
    go none h = absurd h
    go (some (s', a)) h = k s' a h

-- A step without an error is followed by the next one.
pub Ends-attempt {ℓ} :
    {g : Group} {A : Type ℓ} (P : Manager g → Type 0) (Q : Manager g → A → Type 0)
    (m : Step g (Option Err)) (failed : Err → Step g A) (next : Step g A) (s : Manager g)
    → Ends (λ s' e. P s' × (e ≡ none)) (m s)
    → ((s' : Manager g) → P s' → Ends Q (next s'))
    → Ends Q (attempt m failed next s)
Ends-attempt P Q m failed next s h k =
    Ends-bind (λ s' e. P s' × (e ≡ none)) Q m (λ e. elim e [ none ↦ next | some x ↦ failed x ]) s h
      λ s' e (p, fine). rw fine (k s' p)

-- What a step returns is what the rest goes on from.
pub bind_returns {ℓ κ} :
    {g : Group} {A : Type ℓ} {B : Type κ} (m : Step g A) (f : A → Step g B) (s s' : Manager g)
    (a : A)
    → m s ≡ some (s', a)
    → (m >>= f) s ≡ f a s'
bind_returns {g = g} {A = A} {B = B} m f s s' a h = ap (λ (r : Option (Manager g × A)). rest r) h
  where
    rest : Option (Manager g × A) → Option (Manager g × B)
    rest r = elim r [ none ↦ none | some (s', a) ↦ f a s' ]

module _ {ℓ} {g : Group} {A : Type ℓ} (chid : ChannelId) (failed : Err → Step g A)
    (next : ChannelState → Step g A) (s : Manager g) where
  pub fetch_present :
      (ch : ChannelState)
      → g.get_sync s.channels.store chid ≡ ok ch
      → fetch chid failed next s ≡ next ch s
  unfolding get_by_id
  fetch_present ch got = rw (fetch, get_by_id, got) refl

  pub fetch_missing :
      (e : Err)
      → g.get_sync s.channels.store chid ≡ err e
      → fetch chid failed next s ≡ failed (not_found chid) s
  unfolding get_by_id
  fetch_missing e missing = rw (fetch, get_by_id, missing) refl
