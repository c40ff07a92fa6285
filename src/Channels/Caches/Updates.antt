-- ===== src/Channels/Caches/Updates.antt =====
-- What a call on the caches of channels/caches.go answers and leaves behind, hit or miss.
use go_data_transfer.Base.{
  ℕ, ℤ, ◌≡◌, refl, not, Option, none, some, leb_ℤ, if◌then◌else◌, Bool-cases, Option-cases, inl,
  inr,
}
use go_data_transfer.Events.{EventCode}
use go_data_transfer.Types.{ChannelId}
use go_data_transfer.Errors.{ok}
use go_data_transfer.Channels.Fsm.Table.{add_u64}
use go_data_transfer.Channels.Caches.{
  BlockIndexCache, ReadIndexFn, set_index_self, get_index, update_if_greater, ProgressState,
  ReadProgressFn, ProgressCache, set_progress_self, get_progress, add_progress, past_limit,
}

-- The index that counts: the cached one, or the original.
abbrev pub known_or : Option ℤ → ℤ → ℤ
known_or none original = original
known_or (some v) original = v

abbrev pub raised : ℤ → ℤ → ℤ
raised new_index known = if leb_ℤ new_index known then known else new_index

get_index-known :
    (values : BlockIndexCache) (evt : EventCode) (chid : ChannelId) (read : ReadIndexFn)
    (original : ℤ)
    → read chid ≡ ok original
    → let r = get_index values evt chid read in
      (r.1 ≡ ok (known_or (values evt chid) original))
      × (r.0 evt chid ≡ some (known_or (values evt chid) original))
unfolding get_index
get_index-known values evt chid read original h = elim (Option-cases (values evt chid)) [
  | inl miss ↦ rw (miss, get_index, h) (refl, set_index_self values evt chid original)
  | inr (v, hit) ↦ rw (hit, get_index) (refl, hit)
]

-- Hit or miss, the answer is whether the new index is above the known one, and afterwards the
-- greater of the two is cached.
pub update_if_greater-known :
    (values : BlockIndexCache) (evt : EventCode) (chid : ChannelId) (new_index : ℤ)
    (read : ReadIndexFn) (original : ℤ)
    → read chid ≡ ok original
    → let known = known_or (values evt chid) original in
      let r = update_if_greater values evt chid new_index read in
      (r.1 ≡ ok (not (leb_ℤ new_index known))) × (r.0 evt chid ≡ some (raised new_index known))
unfolding update_if_greater
update_if_greater-known values evt chid new_index read original h =
    let known : ℤ = known_or (values evt chid) original in
    let (got, cached) = get_index-known values evt chid read original h in
    rw (got, update_if_greater)
      (elim (Bool-cases (leb_ℤ new_index known)) [
        | inl low ↦ rw low (refl, cached)
        | inr high ↦
            rw high (refl, set_index_self (get_index values evt chid read).0 evt chid new_index)
      ])

-- What is cached for a channel, if anything, is what is read for it.
abbrev pub Agrees : ProgressCache → ChannelId → ProgressState → Type 0
Agrees values chid original = (v : ProgressState) → values chid ≡ some v → v ≡ original

get_progress-known :
    (values : ProgressCache) (chid : ChannelId) (read : ReadProgressFn) (original : ProgressState)
    → read chid ≡ ok original
    → Agrees values chid original
    → (get_progress values chid read).1 ≡ ok original
unfolding get_progress
get_progress-known values chid read original h agree = elim (Option-cases (values chid)) [
  | inl miss ↦ rw (miss, get_progress, h)
  | inr (v, hit) ↦ rw (hit, get_progress, agree v hit)
]

-- Hit or miss, the answer is whether the new total is past the limit, and the new total is cached.
pub add_progress-known :
    (values : ProgressCache) (chid : ChannelId) (delta : ℕ) (read : ReadProgressFn)
    (original : ProgressState)
    → read chid ≡ ok original
    → Agrees values chid original
    → let total = add_u64 original.progress delta in
      let r = add_progress values chid delta read in
      (r.1 ≡ ok (past_limit original.data_limit total))
      × (r.0 chid ≡ some (record { data_limit = original.data_limit; progress = total }))
unfolding add_progress
add_progress-known values chid delta read original h agree =
    let got : (get_progress values chid read).1 ≡ ok original =
      get_progress-known values chid read original h agree in
    rw (got, add_progress)
      (
        refl,
        set_progress_self (get_progress values chid read).0 chid
            (record original { progress = add_u64 original.progress delta }),
      )
