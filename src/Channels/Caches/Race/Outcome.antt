-- ===== src/Channels/Caches/Race/Outcome.antt =====
-- What comes out of `updateIfGreater` of channels/caches.go, whatever the schedule.
use go_data_transfer.Base.{
  ℕ, ℤ, ◌≡◌, refl, ◌∙◌, inl, inr, Bool, true, false, List, [], ◌∷◌, some, arith, leb_ℤ, ◌<ℤ◌, ◌≤ℤ◌,
  ≤ℤ_refl, ≤ℤ_trans, <ℤ→≤, ≤ℤ-<ℤ, Bool-cases, ==_refl, if◌then◌else◌,
}
use go_data_transfer.Events.{EventCode}
use go_data_transfer.Types.{ChannelId}
use go_data_transfer.Errors.{ok}
use go_data_transfer.Channels.Caches.{
  BlockIndexCache, ReadIndexFn, set_index, set_index_self, get_index, update_if_greater,
}
use go_data_transfer.Channels.Caches.Race.{
  Race, Thread, turn, set_thread, same_int_refl, loading, holding, returned, step, schedule, Climbs,
  Stored, Sound, Inv, schedule-Inv, Stored-unique,
}

-- Every goroutine is about to enter the loop, with an index of its own.
pub record IsStart (s : Race) : Type 0 where
  pub threads : (k : ℕ) → (n : ℤ) × (s.thread k ≡ loading n)
  pub none_stored : s.stored ≡ []

start-Inv : (s : Race) → IsStart s → Inv s.counter s
start-Inv s h = record {
  climbs = rw h.none_stored refl;
  sound = λ k. let (n, e) = h.threads k in rw e tt;
}

-- Of all goroutines that come with the same index, in any interleaving, at most one is told that it
-- made progress.
pub progress_once :
    (s : Race) (ks : List ℕ) (k j : ℕ) (n : ℤ)
    → IsStart s
    → (schedule s ks).thread k ≡ returned n true
    → (schedule s ks).thread j ≡ returned n true
    → k ≡ j
progress_once s ks k j n h p q =
    let v : Inv s.counter (schedule s ks) = schedule-Inv s.counter s ks (start-Inv s h) in
    Stored-unique s.counter (schedule s ks).stored (schedule s ks).counter n k j v.climbs
      (rw p at (v.sound k)).1 (rw q at (v.sound j)).1

Climbs-le : (first : ℤ) (xs : List (ℕ × ℤ)) (top : ℤ) → Climbs first xs top → first ≤ℤ top
Climbs-le first [] top c = rw c (≤ℤ_refl first)
Climbs-le first ((j, x) ∷ xs) top (e, (b, c, lt)) =
    rw e (≤ℤ_trans first b x (Climbs-le first xs b c) (<ℤ→≤ b x lt))

first-lt :
    (first : ℤ) (xs : List (ℕ × ℤ)) (top n : ℤ) (k : ℕ)
    → Climbs first xs top
    → Stored k n xs
    → first <ℤ n
first-lt first [] top n k c m = absurd m
first-lt first ((j, x) ∷ xs) top n k (e, (b, c, lt)) (inl (p, q)) =
    rw q (≤ℤ-<ℤ first b x (Climbs-le first xs b c) lt)
first-lt first ((j, x) ∷ xs) top n k (e, (b, c, lt)) (inr m) = first-lt first xs b n k c m

-- In any interleaving, a goroutine that has returned leaves the counter at its index or above; if it
-- was told that it made progress, its index was above the value that the counter started from.
pub returned_bounds :
    (s : Race) (ks : List ℕ) (k : ℕ) (n : ℤ) (b : Bool)
    → IsStart s
    → (schedule s ks).thread k ≡ returned n b
    → (n ≤ℤ (schedule s ks).counter) × (b ≡ true → s.counter <ℤ n)
returned_bounds s ks k n b h p =
    let v : Inv s.counter (schedule s ks) = schedule-Inv s.counter s ks (start-Inv s h) in
    by_result b (rw p at (v.sound k)) v.climbs
  where
    by_result :
        (b : Bool)
        → Sound (schedule s ks).counter (schedule s ks).stored k (returned n b)
        → Climbs s.counter (schedule s ks).stored (schedule s ks).counter
        → (n ≤ℤ (schedule s ks).counter) × (b ≡ true → s.counter <ℤ n)
    by_result true o c =
        (o.0, λ _. first-lt s.counter (schedule s ks).stored (schedule s ks).counter n k c o.1)
    by_result false o c = (o, λ e. cc)

step_lem : (s : Race) (k : ℕ) (th : Thread) → s.thread k ≡ th → step s k ≡ turn s k th
unfolding step
step_lem s k th e = rw e

own_thread : (ts : ℕ → Thread) (k : ℕ) (th : Thread) → set_thread ts k th k ≡ th
own_thread ts k th = rw (==_refl k)

alone_low :
    (s : Race) (k : ℕ) (n : ℤ)
    → s.thread k ≡ loading n
    → leb_ℤ n s.counter ≡ true
    → schedule s (k ∷ k ∷ []) ≡ record s { thread = set_thread s.thread k (returned n false) }
unfolding schedule
alone_low s k n e low =
    let s₁ : Race = record s { thread = set_thread s.thread k (returned n false) } in
    let one : step s k ≡ s₁ = step_lem s k (loading n) e ∙ (rw low) in
    rw one (step_lem s₁ k (returned n false) (own_thread s.thread k (returned n false)))

abbrev raised : Race → ℕ → ℤ → Race
raised s k n = record s {
  counter = n;
  thread = set_thread (set_thread s.thread k (holding n s.counter)) k (returned n true);
  stored = (k, n) ∷ s.stored;
}

alone_high :
    (s : Race) (k : ℕ) (n : ℤ)
    → s.thread k ≡ loading n
    → leb_ℤ n s.counter ≡ false
    → schedule s (k ∷ k ∷ []) ≡ raised s k n
unfolding schedule
alone_high s k n e high =
    let s₁ : Race = record s { thread = set_thread s.thread k (holding n s.counter) } in
    let one : step s k ≡ s₁ = step_lem s k (loading n) e ∙ (rw high) in
    rw one (
      step_lem s₁ k (holding n s.counter) (own_thread s.thread k (holding n s.counter))
      ∙ (rw (same_int_refl s.counter)))

sequential :
    (values : BlockIndexCache) (evt : EventCode) (chid : ChannelId) (n c : ℤ) (read : ReadIndexFn)
    → values evt chid ≡ some c
    → update_if_greater values evt chid n read
      ≡ (if leb_ℤ n c then (values, ok false) else (set_index values evt chid n, ok true))
unfolding update_if_greater get_index
sequential values evt chid n c read h = ground arith

-- A goroutine that runs with no other in between returns after two turns at most, with the answer of
-- the sequential model, and leaves the counter as the sequential model leaves the cached value.
pub alone_agrees :
    (s : Race) (k : ℕ) (n : ℤ) (values : BlockIndexCache) (evt : EventCode) (chid : ChannelId)
    (read : ReadIndexFn)
    → s.thread k ≡ loading n
    → values evt chid ≡ some s.counter
    → let r = update_if_greater values evt chid n read in
      let s' = schedule s (k ∷ k ∷ []) in
      (b : Bool) × (s'.thread k ≡ returned n b) × (r.1 ≡ ok b) × (r.0 evt chid ≡ some s'.counter)
alone_agrees s k n values evt chid read e cached = elim (Bool-cases (leb_ℤ n s.counter)) [
  | inl low ↦
      rw (alone_low s k n e low, sequential values evt chid n s.counter read cached, low)
        (false, own_thread s.thread k (returned n false), refl, cached)
  | inr high ↦
      rw (alone_high s k n e high, sequential values evt chid n s.counter read cached, high)
        (
          true,
          own_thread (set_thread s.thread k (holding n s.counter)) k (returned n true),
          refl,
          set_index_self values evt chid n,
        )
]
