-- ===== src/Channels/Ops/Apart.antt =====
-- What the operations of channels/channels.go on one channel leave of another: its stored state, and
-- its entries in the caches of channels/caches.go.
use go_data_transfer.Base.{
  ℕ, ℤ, ◌≡◌, refl, ◌∙◌, Bool, true, false, Option, none, some, Option-cases, inl, inr,
}
use go_data_transfer.Events.{EventCode, data_limit_exceeded}
use go_data_transfer.Types.{Cid, ChannelId, channel_id_eq}
use go_data_transfer.Errors.{Err, pause, Result-cases}
use go_data_transfer.Channels.Fsm.Engine.{Args, nothing, an_index, some_bytes}
use go_data_transfer.Channels.Caches.{
  ReadIndexFn, ReadProgressFn, update_if_greater, cache_data_limit,
}
use go_data_transfer.Channels.Caches.Entries.{
  update_if_greater_other, add_progress_other, cache_data_limit_other,
}
use go_data_transfer.Channels.Group.{Group}
use go_data_transfer.Channels.Ops.{
  Channels, Op, proceed, when, fail, ◌>>◌, send, machine_send, check_channel_exists, set_data_limit,
}
use go_data_transfer.Channels.Ops.Progress.{
  check_limit, check_events, fire_events, fire_progress_event, data_sent, data_queued,
  data_received, get_sent_index, get_queued_index, get_received_index, get_queued_progress,
  get_received_progress,
}

-- The second channels have of `other` what the first have.
pub record Untouched (g : Group) (other : ChannelId) (c c' : Channels g) : Type 0 where
  pub same_state : g.get_sync c'.store other ≡ g.get_sync c.store other
  pub same_indexes :
      (evt : EventCode) → c'.block_index_cache evt other ≡ c.block_index_cache evt other
  pub same_progress : c'.progress_cache other ≡ c.progress_cache other

module _ (g : Group) (chid other : ChannelId) (apart : channel_id_eq chid other ≡ false) where
  as_it_was : (c : Channels g) → Untouched g other c c
  as_it_was c = record { same_state = refl; same_indexes = λ evt. refl; same_progress = refl }

  then_still :
      (a b c : Channels g) → Untouched g other a b → Untouched g other b c → Untouched g other a c
  then_still a b c u v = record {
    same_state = v.same_state ∙ u.same_state;
    same_indexes = λ evt. v.same_indexes evt ∙ u.same_indexes evt;
    same_progress = v.same_progress ∙ u.same_progress;
  }

  -- An operation that leaves the other channel alone, whatever the channels.
  abbrev Apart : Op g → Type 0
  Apart m = (c : Channels g) → Untouched g other c (m c).0

  proceed-Untouched :
      (k : Op g) (a : Channels g) (r : Channels g × Option Err)
      → Apart k
      → Untouched g other a r.0
      → Untouched g other a (proceed k r).0
  proceed-Untouched k a (c, none) after u = then_still a c (k c).0 u (after c)
  proceed-Untouched k a (c, some e) after u = u

  seq-Apart : (m k : Op g) → Apart m → Apart k → Apart (m >> k)
  seq-Apart m k before after c = proceed-Untouched k c (m c) after (before c)

  when-Apart : (b : Bool) (m : Op g) → Apart m → Apart (when b m)
  when-Apart true m h = h
  when-Apart false m h = as_it_was

  machine_send-Apart : (code : EventCode) (args : Args) → Apart (machine_send g chid code args)
  unfolding machine_send
  machine_send-Apart code args c = record {
    same_state = g.get_sync-send_other c.store chid other code args apart;
    same_indexes = λ evt. refl;
    same_progress = refl;
  }

  send-Apart : (code : EventCode) (args : Args) → Apart (send g chid code args)
  unfolding send
  send-Apart code args c = elim (Option-cases (check_channel_exists g c chid code)) [
    | inl h ↦ rw (h, send) (machine_send-Apart code args c)
    | inr (e, h) ↦ rw (h, send) (as_it_was c)
  ]

  fire_events-Apart :
      (evt progress_evt : EventCode) (delta : ℕ) (index : ℤ) (paused progress : Bool)
      → Apart (fire_events g chid evt progress_evt delta index (paused, progress))
  unfolding fire_events
  fire_events-Apart evt progress_evt delta index paused progress =
      seq-Apart (when progress (machine_send g chid progress_evt (some_bytes delta)))
        (machine_send g chid evt (an_index index)
          >> when paused (machine_send g chid data_limit_exceeded nothing >> fail pause))
        (when-Apart progress (machine_send g chid progress_evt (some_bytes delta))
          (machine_send-Apart progress_evt (some_bytes delta)))
        (seq-Apart (machine_send g chid evt (an_index index))
          (when paused (machine_send g chid data_limit_exceeded nothing >> fail pause))
          (machine_send-Apart evt (an_index index))
          (when-Apart paused (machine_send g chid data_limit_exceeded nothing >> fail pause) (
            seq-Apart (machine_send g chid data_limit_exceeded nothing) (fail pause)
              (machine_send-Apart data_limit_exceeded nothing) as_it_was)))

  check_limit-Apart :
      (delta : ℕ) (read : Option ReadProgressFn) (c : Channels g)
      → Untouched g other c (check_limit g chid delta read c).0
  unfolding check_limit
  check_limit-Apart delta none c = as_it_was c
  check_limit-Apart delta (some read) c = record {
    same_state = refl;
    same_indexes = λ evt. refl;
    same_progress = add_progress_other chid other apart c.progress_cache delta read;
  }

  check_events-Apart :
      (evt : EventCode) (delta : ℕ) (index : ℤ) (unique : Bool) (read : ReadIndexFn)
      (read_progress : Option ReadProgressFn) (c : Channels g)
      → Untouched g other c (check_events g chid evt delta index unique read read_progress c).0
  unfolding check_events
  check_events-Apart evt delta index false read read_progress c = as_it_was c
  check_events-Apart evt delta index true read read_progress c =
      elim (Result-cases (update_if_greater c.block_index_cache evt chid index read).1) [
        | inl (x, h) ↦ rw h indexed
        | inr (false, h) ↦ rw h indexed
        | inr (true, h) ↦ elim (Result-cases (check_limit g chid delta read_progress c').1) [
          | inl (x, h') ↦ rw (h, h') limited
          | inr (p, h') ↦ rw (h, h') limited
        ]
      ]
    where
      c' : Channels g
      c' = record c {
        block_index_cache = (update_if_greater c.block_index_cache evt chid index read).0;
      }

      indexed : Untouched g other c c'
      indexed = record {
        same_state = refl;
        same_indexes =
            λ e. update_if_greater_other chid other apart c.block_index_cache evt e index read;
        same_progress = refl;
      }

      limited : Untouched g other c (check_limit g chid delta read_progress c').0
      limited =
          then_still c c' (check_limit g chid delta read_progress c').0 indexed
            (check_limit-Apart delta read_progress c')

  fire_progress_event-Apart :
      (evt progress_evt : EventCode) (delta : ℕ) (index : ℤ) (unique : Bool) (read : ReadIndexFn)
      (read_progress : Option ReadProgressFn) (c : Channels g)
      → Untouched g other c
          (fire_progress_event g chid evt progress_evt delta index unique read read_progress c).0
  unfolding fire_progress_event
  fire_progress_event-Apart evt progress_evt delta index unique read read_progress c =
      elim (Option-cases (check_channel_exists g c chid evt)) [
        | inr (e, h) ↦ rw (h, fire_progress_event) (as_it_was c)
        | inl h ↦
            rw (h, fire_progress_event)
              (let c' : Channels g =
                  (check_events g chid evt delta index unique read read_progress c).0 in
                let u = check_events-Apart evt delta index unique read read_progress c in
                elim (Result-cases
                  (check_events g chid evt delta index unique read read_progress c).1) [
                    | inl (x, h') ↦ rw h' u
                    | inr ((paused, progress), h') ↦ rw h' (
                        then_still c c'
                          (fire_events g chid evt progress_evt delta index (paused, progress) c').0
                          u (fire_events-Apart evt progress_evt delta index paused progress c'))
                  ])
      ]

  -- A report of a block on one channel, whether sent, queued or received, and a new data limit for it,
  -- leave another channel as it is, also if they fail: what is stored of it, the index that is known of
  -- each kind of report, and its cached progress and limit.
  pub reports-Untouched :
      (k : Cid) (delta : ℕ) (index : ℤ) (unique : Bool) (limit : ℕ) (c : Channels g)
      → Untouched g other c (data_sent g chid k delta index unique c).0
        × Untouched g other c (data_queued g chid k delta index unique c).0
        × Untouched g other c (data_received g chid k delta index unique c).0
        × Untouched g other c (set_data_limit g chid limit c).0
  unfolding data_sent data_queued data_received set_data_limit
  reports-Untouched k delta index unique limit c = (
    fire_progress_event-Apart EventCode.data_sent EventCode.data_sent_progress delta index unique
        (get_sent_index g c) none c,
    fire_progress_event-Apart EventCode.data_queued EventCode.data_queued_progress delta index
        unique (get_queued_index g c) (some (get_queued_progress g c)) c,
    fire_progress_event-Apart EventCode.data_received EventCode.data_received_progress delta index
        unique (get_received_index g c) (some (get_received_progress g c)) c,
    then_still c (record c { progress_cache = cache_data_limit c.progress_cache chid limit })
        (set_data_limit g chid limit c).0
        (record {
          same_state = refl;
          same_indexes = λ evt. refl;
          same_progress = cache_data_limit_other chid other apart c.progress_cache limit;
        })
        (send-Apart EventCode.set_data_limit (some_bytes limit)
          (record c { progress_cache = cache_data_limit c.progress_cache chid limit })),
  )
