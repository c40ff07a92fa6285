-- ===== src/Channels/Caches/Entries.antt =====
-- What the caches of channels/caches.go do for one channel leaves the entries of another as they are.
use go_data_transfer.Base.{
  ℕ, ℤ, ◌≡◌, refl, ◌∙◌, false, arith, Option-cases, Bool-cases, inl, inr, leb_ℤ,
}
use go_data_transfer.Events.{EventCode}
use go_data_transfer.Types.{ChannelId, channel_id_eq}
use go_data_transfer.Errors.{Result-cases}
use go_data_transfer.Channels.Caches.{
  BlockIndexCache, ProgressCache, ProgressState, ReadIndexFn, ReadProgressFn, get_index,
  update_if_greater, get_progress, add_progress, cache_data_limit, set_index, set_progress,
}

module _ (chid other : ChannelId) (apart : channel_id_eq chid other ≡ false) where
  set_index_other :
      (values : BlockIndexCache) (evt e : EventCode) (v : ℤ)
      → set_index values evt chid v e other ≡ values e other
  set_index_other values evt e v = rw apart (ground arith)

  set_progress_other :
      (values : ProgressCache) (v : ProgressState) → set_progress values chid v other ≡ values other
  set_progress_other values v = rw apart refl

  get_index_other :
      (values : BlockIndexCache) (evt e : EventCode) (read : ReadIndexFn)
      → (get_index values evt chid read).0 e other ≡ values e other
  unfolding get_index
  get_index_other values evt e read = ground (arith, set_index_other values evt e)

  pub update_if_greater_other :
      (values : BlockIndexCache) (evt e : EventCode) (v : ℤ) (read : ReadIndexFn)
      → (update_if_greater values evt chid v read).0 e other ≡ values e other
  unfolding update_if_greater
  update_if_greater_other values evt e v read =
      elim (Result-cases (get_index values evt chid read).1) [
        | inl (x, h) ↦ rw (h, update_if_greater) (get_index_other values evt e read)
        | inr (n, h) ↦
            rw (h, update_if_greater)
              (elim (Bool-cases (leb_ℤ v n)) [
                | inl old ↦ rw old (get_index_other values evt e read)
                | inr new ↦ rw new (
                    set_index_other (get_index values evt chid read).0 evt e v
                    ∙ get_index_other values evt e read)
              ])
      ]

  get_progress_other :
      (values : ProgressCache) (read : ReadProgressFn)
      → (get_progress values chid read).0 other ≡ values other
  unfolding get_progress
  get_progress_other values read = elim (Option-cases (values chid)) [
    | inl h ↦ elim (Result-cases (read chid)) [
      | inl (x, h') ↦ rw (h, h', get_progress) refl
      | inr (v, h') ↦ rw (h, h', get_progress) (set_progress_other values v)
    ]
    | inr (v, h) ↦ rw (h, get_progress) refl
  ]

  pub add_progress_other :
      (values : ProgressCache) (n : ℕ) (read : ReadProgressFn)
      → (add_progress values chid n read).0 other ≡ values other
  unfolding add_progress
  add_progress_other values n read = elim (Result-cases (get_progress values chid read).1) [
    | inl (x, h) ↦ rw (h, add_progress) (get_progress_other values read)
    | inr (v, h) ↦
        rw (h, add_progress)
          (set_progress_other (get_progress values chid read).0 _ ∙ get_progress_other values read)
  ]

  pub cache_data_limit_other :
      (values : ProgressCache) (n : ℕ) → cache_data_limit values chid n other ≡ values other
  unfolding cache_data_limit
  cache_data_limit_other values n = elim (Option-cases (values chid)) [
    | inl h ↦ rw (h, cache_data_limit) refl
    | inr (v, h) ↦ rw (h, cache_data_limit) (set_progress_other values _)
  ]
