-- ===== src/Channels/Caches/Race.antt =====
-- The loop of `updateIfGreater` in channels/caches.go when many goroutines run it on one counter: a
-- goroutine loads the counter, then either gives up or swaps, and loads again if the swap fails.
pub mod Outcome
use go_data_transfer.Base.{
  ℕ, ℤ, ◌≡◌, ◌≢◌, ◌⊎◌, inl, inr, Bool, true, false, List, [], ◌∷◌, Option, none, some, arith, ◌==◌,
  ◌&&◌, leb_ℤ, ◌<ℤ◌, ◌≤ℤ◌, if◌then◌else◌, Bool-cases, ==_iff, refl, sym, ◌∙◌, leb_ℤ→le, leb_ℤ-false,
  <ℤ→≤, <ℤ_irrefl, ≤ℤ_refl, ≤ℤ_trans,
}

-- Where a goroutine stands in the loop: about to load, holding the index it loaded, or returned.
pub data Thread : Type 0 where
  loading : ℤ → Thread
  holding : ℤ → ℤ → Thread
  returned : ℤ → Bool → Thread

-- The counter, the goroutines by number, and what each successful swap stored, latest first.
pub record Race : Type 0 where
  pub counter : ℤ
  pub thread : ℕ → Thread
  pub stored : List (ℕ × ℤ)

abbrev pub set_thread : (ℕ → Thread) → ℕ → Thread → ℕ → Thread
set_thread ts k t j = if k == j then t else ts j

abbrev pub same_int : ℤ → ℤ → Bool
same_int a b = leb_ℤ a b && leb_ℤ b a

-- One step of goroutine `k`: `LoadInt64` with the test behind it, or `CompareAndSwapInt64`.
abbrev pub turn : Race → ℕ → Thread → Race
turn s k (loading new_index) =
    if leb_ℤ new_index s.counter
    then record s { thread = set_thread s.thread k (returned new_index false) }
    else record s { thread = set_thread s.thread k (holding new_index s.counter) }
turn s k (holding new_index current_index) =
    if same_int s.counter current_index
    then record s {
      counter = new_index;
      thread = set_thread s.thread k (returned new_index true);
      stored = (k, new_index) ∷ s.stored;
    }
    else record s { thread = set_thread s.thread k (loading new_index) }
turn s k (returned new_index b) = s

unfoldable pub step : Race → ℕ → Race
step s k = turn s k (s.thread k)

-- A schedule says which goroutine goes next.
unfoldable pub schedule : Race → List ℕ → Race
unfolding step
schedule s [] = s
schedule s (k ∷ ks) = schedule (step s k) ks

-- The counter over what was stored, each index above the one before it, down to the first value.
abbrev pub Climbs : ℤ → List (ℕ × ℤ) → ℤ → Type 0
Climbs first [] top = top ≡ first
Climbs first ((k, x) ∷ xs) top = (top ≡ x) × ((below : ℤ) × Climbs first xs below × (below <ℤ x))

abbrev pub Stored : ℕ → ℤ → List (ℕ × ℤ) → Type 0
Stored k n [] = ⊥
Stored k n ((j, x) ∷ xs) = ((k ≡ j) × (n ≡ x)) ⊎ Stored k n xs

-- What holds of a goroutine: while it holds an index, it wants to raise it; when it has returned, the
-- counter is at least its index, and it returned true only if it stored that index.
abbrev pub Sound : ℤ → List (ℕ × ℤ) → ℕ → Thread → Type 0
Sound counter stored k (loading n) = Unit {0}
Sound counter stored k (holding n c) = c <ℤ n
Sound counter stored k (returned n true) = (n ≤ℤ counter) × Stored k n stored
Sound counter stored k (returned n false) = n ≤ℤ counter

pub record Inv (first : ℤ) (s : Race) : Type 0 where
  pub climbs : Climbs first s.stored s.counter
  pub sound : (k : ℕ) → Sound s.counter s.stored k (s.thread k)

set_thread-Sound :
    (c : ℤ) (st : List (ℕ × ℤ)) (ts : ℕ → Thread) (k : ℕ) (th : Thread)
    → Sound c st k th
    → ((j : ℕ) → Sound c st j (ts j))
    → (j : ℕ) → Sound c st j (set_thread ts k th j)
set_thread-Sound c st ts k th new old j = elim (Bool-cases (k == j)) [
  | inl hit ↦ rw (hit, ← (==_iff k j).0 hit) new
  | inr miss ↦ rw miss (old j)
]

Sound-grow :
    (c x : ℤ) (st : List (ℕ × ℤ)) (k j : ℕ) (th : Thread)
    → c ≤ℤ x
    → Sound c st j th
    → Sound x ((k, x) ∷ st) j th
Sound-grow c x st k j (loading n) h s = tt
Sound-grow c x st k j (holding n l) h s = s
Sound-grow c x st k j (returned n true) h s = (≤ℤ_trans n c x s.0 h, inr s.1)
Sound-grow c x st k j (returned n false) h s = ≤ℤ_trans n c x s h

pub same_int_refl : (a : ℤ) → same_int a a ≡ true
same_int_refl a = ground arith

same_int-eq : (a b : ℤ) → same_int a b ≡ true → a ≡ b
same_int-eq a b h = ground arith

turn-Inv :
    (first : ℤ) (s : Race) (k : ℕ) (th : Thread)
    → s.thread k ≡ th
    → Inv first s
    → Inv first (turn s k th)
turn-Inv first s k (loading n) e v = elim (Bool-cases (leb_ℤ n s.counter)) [
  | inl low ↦ rw low (record {
    climbs = v.climbs;
    sound =
        set_thread-Sound s.counter s.stored s.thread k (returned n false) (leb_ℤ→le n s.counter low)
          v.sound;
  })
  | inr high ↦ rw high (record {
    climbs = v.climbs;
    sound =
        set_thread-Sound s.counter s.stored s.thread k (holding n s.counter)
          (leb_ℤ-false n s.counter high) v.sound;
  })
]
turn-Inv first s k (holding n c) e v =
    let wants : c <ℤ n = (rw e at (v.sound k)) in
    elim (Bool-cases (same_int s.counter c)) [
      | inl same ↦
          let at : s.counter ≡ c = same_int-eq s.counter c same in
          let rise : s.counter <ℤ n = rw at wants in
          rw same (record {
            climbs = (refl, (s.counter, v.climbs, rise));
            sound =
                set_thread-Sound n ((k, n) ∷ s.stored) s.thread k (returned n true)
                  (≤ℤ_refl n, inl (refl, refl))
                  (λ j.
                    Sound-grow s.counter n s.stored k j (s.thread j) (<ℤ→≤ s.counter n rise)
                      (v.sound j));
          })
      | inr moved ↦ rw moved (record {
        climbs = v.climbs;
        sound = set_thread-Sound s.counter s.stored s.thread k (loading n) tt v.sound;
      })
    ]
turn-Inv first s k (returned n b) e v = v

pub schedule-Inv : (first : ℤ) (s : Race) (ks : List ℕ) → Inv first s → Inv first (schedule s ks)
unfolding schedule step
schedule-Inv first s [] v = v
schedule-Inv first s (k ∷ ks) v =
    schedule-Inv first (turn s k (s.thread k)) ks (turn-Inv first s k (s.thread k) refl v)

Stored-le :
    (first : ℤ) (xs : List (ℕ × ℤ)) (top n : ℤ) (k : ℕ)
    → Climbs first xs top
    → Stored k n xs
    → n ≤ℤ top
Stored-le first [] top n k c m = absurd m
Stored-le first ((j, x) ∷ xs) top n k (e, (b, c, lt)) (inl (p, q)) = rw (e, q) (≤ℤ_refl x)
Stored-le first ((j, x) ∷ xs) top n k (e, (b, c, lt)) (inr m) =
    rw e (≤ℤ_trans n b x (Stored-le first xs b n k c m) (<ℤ→≤ b x lt))

Stored-unique :
    (first : ℤ) (xs : List (ℕ × ℤ)) (top n : ℤ) (k j : ℕ)
    → Climbs first xs top
    → Stored k n xs
    → Stored j n xs
    → k ≡ j
Stored-unique first [] top n k j c m l = absurd m
Stored-unique first ((i, x) ∷ xs) top n k j (e, (b, c, lt)) (inl (p, q)) (inl (r, s)) = p ∙ sym r
Stored-unique first ((i, x) ∷ xs) top n k j (e, (b, c, lt)) (inl (p, q)) (inr l) =
    absurd (<ℤ_irrefl b x lt (rw q at (Stored-le first xs b n j c l)))
Stored-unique first ((i, x) ∷ xs) top n k j (e, (b, c, lt)) (inr m) (inl (r, s)) =
    absurd (<ℤ_irrefl b x lt (rw s at (Stored-le first xs b n k c m)))
Stored-unique first ((i, x) ∷ xs) top n k j (e, (b, c, lt)) (inr m) (inr l) =
    Stored-unique first xs b n k j c m l
