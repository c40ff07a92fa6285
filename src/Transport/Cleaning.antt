-- ===== src/Transport/Cleaning.antt =====
-- What `CleanupChannel` leaves of a channel, and of the others.
use go_data_transfer.Base.{
  ◌≡◌, ◌≢◌, inl, inr, refl, sym, subst, ap, ◌∙◌, ◌∷◌, none, find, find-remove, find-remove_other,
  Option-cases, Bool-cases, if◌then◌else◌,
}
use go_data_transfer.Types.{ChannelId}
use go_data_transfer.Transport.World.{
  RequestId, unregister_persistence_option, Transport, Graphsync, by_channel,
}
use go_data_transfer.Transport.Tracking.{held, load}
use go_data_transfer.Transport.Tracking.Lookup.{unless_of, load_in-without}
use go_data_transfer.Transport.Channel.{cleanup}
use go_data_transfer.Transport.{cleanup_channel}
use go_data_transfer.Transport.Rules.{Returns}
use go_data_transfer.Transport.Linked.{Linked, unless_of-other}

module _ {W E : Type 0} (chid : ChannelId) (t : Transport W E) where
  -- The channel and its requests are gone, its store is unregistered if it had one, and nothing else
  -- is changed.
  pub record Forgets (s : Transport W E) : Type 0 where
    pub gone : find by_channel s.dt_channels chid ≡ none
    pub requests : (r : RequestId) → load s r ≡ unless_of chid (load t r)
    pub others :
        (d : ChannelId)
        → chid ≢ d
        → find by_channel s.dt_channels d ≡ find by_channel t.dt_channels d
    pub calls : s.gs_calls ≡ (
        if (held t chid).store_registered
        then unregister_persistence_option chid ∷ t.gs_calls
        else t.gs_calls)
    pub handler : s.handler ≡ t.handler

  unmapped :
      Linked t
      → find by_channel t.dt_channels chid ≡ none
      → (r : RequestId) → load t r ≡ unless_of chid (load t r)
  unmapped v missing r = elim (Option-cases (load t r)) [
    | inl free ↦ rw free refl
    | inr (d, maps) ↦
        let other : chid ≢ d =
          λ e. v.tracked r d maps (subst (λ x. find by_channel t.dt_channels x ≡ none) e missing) in
        maps ∙ (sym (unless_of-other chid d other) ∙ ap (unless_of chid) (sym maps))
  ]

  -- If the maps of the transport agree: after `CleanupChannel` the channel is not tracked and no
  -- request maps to it, the other channels and their requests are as before, and its store is
  -- unregistered exactly if it was registered.
  pub cleanup_channel-Forgets :
      (p : Graphsync W) → Linked t → Returns (λ s a. Forgets s) (cleanup_channel p chid t)
  unfolding cleanup_channel cleanup
  cleanup_channel-Forgets p v = elim (Option-cases (find by_channel t.dt_channels chid)) [
    | inl missing ↦
        rw (Returns, cleanup_channel, missing)
          (record {
            gone = missing;
            requests = unmapped v missing;
            others = λ d other. refl;
            calls = rw missing refl;
            handler = refl;
          })
    | inr (c, there) ↦ elim (Bool-cases c.store_registered) [
      | inl stored ↦
          rw (Returns, cleanup_channel, there, cleanup, stored)
            (record {
              gone = find-remove by_channel chid t.dt_channels;
              requests = load_in-without chid t.request_id_to_channel_id;
              others = λ d other. find-remove_other by_channel chid d t.dt_channels other;
              calls = rw (there, stored) refl;
              handler = refl;
            })
      | inr plain ↦
          rw (Returns, cleanup_channel, there, cleanup, plain)
            (record {
              gone = find-remove by_channel chid t.dt_channels;
              requests = load_in-without chid t.request_id_to_channel_id;
              others = λ d other. find-remove_other by_channel chid d t.dt_channels other;
              calls = rw (there, plain) refl;
              handler = refl;
            })
    ]
  ]
