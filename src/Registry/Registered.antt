-- ===== src/Registry/Registered.antt =====
-- Which processor a registry has after any registrations.
use go_data_transfer.Base.{
  ◌≡◌, ap, refl, arith, ◌∙◌, Bool, true, false, List, [], ◌∷◌, Option, none, some, str_eq,
  if◌then◌else◌, eq_iff,
}
use go_data_transfer.Types.{TypeIdentifier}
use go_data_transfer.Registry.{Registry, new_registry, processor, register}

-- Registrations one after the other, the errors passed over.
abbrev pub register_all {ℓ} : {P : Type ℓ} → Registry P → List (TypeIdentifier × P) → Registry P
register_all r [] = r
register_all r ((i, p) ∷ ps) = register_all (register r i p).0 ps

-- The processor of the first registration of the type.
abbrev pub first_for {ℓ} : {P : Type ℓ} → TypeIdentifier → List (TypeIdentifier × P) → Option P
first_for i [] = none
first_for i ((j, p) ∷ ps) = if str_eq j i then some p else first_for i ps

abbrev or_else {ℓ} : {A : Type ℓ} → Option A → Option A → Option A
or_else none b = b
or_else (some a) b = some a

-- One registration: what it puts first, if nothing is there.
processor-register {ℓ} :
    {P : Type ℓ} (r : Registry P) (i j : TypeIdentifier) (p : P)
    → processor (register r i p).0 j ≡ or_else (processor r j) (if str_eq i j then some p else none)
unfolding processor register
processor-register r i j p = let e = eq_iff i j in grind arith

or_else-first {ℓ} :
    {A : Type ℓ} (b : Bool) (o : Option A) (p : A) (rest : Option A)
    → or_else (or_else o (if b then some p else none)) rest ≡ or_else o (if b then some p else rest)
or_else-first true none p rest = refl
or_else-first false none p rest = refl
or_else-first b (some a) p rest = refl

register_all-processor {ℓ} :
    {P : Type ℓ} (r : Registry P) (ps : List (TypeIdentifier × P)) (i : TypeIdentifier)
    → processor (register_all r ps) i ≡ or_else (processor r i) (first_for i ps)
register_all-processor r [] i = elim (processor r i) as (λ x. x ≡ or_else x none) [
  | none ↦ refl
  | some p ↦ refl
]
register_all-processor r ((j, p) ∷ ps) i =
    register_all-processor (register r j p).0 ps i
    ∙ (ap (λ x. or_else x (first_for i ps)) (processor-register r j i p)
        ∙ or_else-first (str_eq j i) (processor r i) p (first_for i ps))

-- After any registrations, in which a type may come several times, the processor of a type is the
-- first that was registered for it.
register_all-first_for {ℓ} :
    {P : Type ℓ} (ps : List (TypeIdentifier × P)) (i : TypeIdentifier)
    → processor (register_all new_registry ps) i ≡ first_for i ps
unfolding processor
register_all-first_for ps i = register_all-processor new_registry ps i
