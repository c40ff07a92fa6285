-- ===== src/Transport/Linked.antt =====
-- The two maps of the transport agree: the channels, and the requests.
pub mod Operations
pub mod Methods
pub mod Runs
use go_data_transfer.Base.{
  ◌≡◌, ◌≢◌, inl, inr, refl, ap, sym, subst, ◌∙◌, Bool, true, false, List, Option, none, some,
  Option-cases, find, insert, find-insert, find-insert_other, find-remove, find-remove_other,
  remove, if◌then◌else◌, Bool-cases,
}
use go_data_transfer.Types.{ChannelId, channel_id_eq, channel_id_eq_refl, channel_id_eq_iff}
use go_data_transfer.Transport.World.{
  RequestId, ChannelInfo, DtChannel, Transport, by_channel, by_request,
}
use go_data_transfer.Transport.Tracking.{
  or_new, held, put_channel, load_in, set_request, delete_refs, without, track_dt_channel,
  new_dt_channel,
}
use go_data_transfer.Transport.{untrack}
use go_data_transfer.Transport.Tracking.Lookup.{
  channel_cases, request_cases, load_in-insert, load_in-insert_other, load_in-without, unless_of,
}

pub some_eq : {A : Type 0} {a b : A} → some a ≡ some b → a ≡ b
some_eq h = cc

pub unless_of-other : (chid d : ChannelId) → chid ≢ d → unless_of chid (some d) ≡ some d
unless_of-other chid d other = elim (Bool-cases (channel_id_eq d chid)) [
  | inl hit ↦ absurd (other (sym ((channel_id_eq_iff d chid).0 hit)))
  | inr miss ↦ rw miss refl
]

pub unless_of-some :
    (chid d : ChannelId) (o : Option ChannelId)
    → unless_of chid o ≡ some d
    → (chid ≢ d) × (o ≡ some d)
unless_of-some chid d none h = cc
unless_of-some chid d (some x) h = elim (Bool-cases (channel_id_eq x chid)) [
  | inl hit ↦ absurd (lost (rw hit at h))
  | inr miss ↦
      let eq : x ≡ d = some_eq (rw miss at h) in
      (λ e. apart (subst (λ y. channel_id_eq y chid ≡ false) (eq ∙ sym e) miss), ap some eq)
]
  where
    lost : none ≡ some d → ⊥
    lost p = cc

    apart : channel_id_eq chid chid ≡ false → ⊥
    apart p = let q = channel_id_eq_refl chid in cc

-- The request that a channel has, and the one that is announced to `open`, map to the channel; and a
-- request maps to a channel that is tracked.
pub record LinkedMaps {W : Type 0} (channels : List (ChannelId × DtChannel W))
    (requests : List (RequestId × ChannelInfo)) : Type 0 where
  pub current :
      (chid : ChannelId) (r : RequestId)
      → (or_new chid (find by_channel channels chid)).request_id ≡ some r
      → load_in requests r ≡ some chid
  pub announced :
      (chid : ChannelId) (r : RequestId)
      → (or_new chid (find by_channel channels chid)).opened ≡ some r
      → load_in requests r ≡ some chid
  pub tracked :
      (r : RequestId) (chid : ChannelId)
      → load_in requests r ≡ some chid
      → find by_channel channels chid ≢ none

module _ {W E : Type 0} where
  abbrev pub Linked : Transport W E → Type 0
  Linked t = LinkedMaps t.dt_channels t.request_id_to_channel_id

  abbrev pub Tracks : Transport W E → ChannelId → Type 0
  Tracks t chid = find by_channel t.dt_channels chid ≢ none

  -- The request is new, or is already one of the channel.
  abbrev pub Free : Transport W E → RequestId → ChannelId → Type 0
  Free t r chid = (d : ChannelId) → load_in t.request_id_to_channel_id r ≡ some d → d ≡ chid

  pub put_channel-Tracks :
      (t : Transport W E) (chid : ChannelId) (c : DtChannel W) → Tracks (put_channel chid c t) chid
  put_channel-Tracks t chid c h = absurd (clash (find-insert by_channel chid c t.dt_channels) h)
    where
      clash : {o : Option (DtChannel W)} → o ≡ some c → o ≡ none → ⊥
      clash p q = cc

  -- A change of one channel, to requests that map to it.
  pub put_channel-Linked :
      (t : Transport W E) (chid : ChannelId) (c : DtChannel W)
      → Linked t
      → ((r : RequestId) → c.request_id ≡ some r → load_in t.request_id_to_channel_id r ≡ some chid)
      → ((r : RequestId) → c.opened ≡ some r → load_in t.request_id_to_channel_id r ≡ some chid)
      → Linked (put_channel chid c t)
  put_channel-Linked t chid c v now next = record {
    current = λ d r h. elim (channel_cases chid d) [
      | inl e ↦
          subst
            (λ x.
              (or_new x (find by_channel (insert by_channel chid c t.dt_channels) x)).request_id
                ≡ some r
              → load_in t.request_id_to_channel_id r ≡ some x)
            e (λ g. now r (rw (find-insert by_channel chid c t.dt_channels) at g)) h
      | inr other ↦
          v.current d r (rw (find-insert_other by_channel chid d c t.dt_channels other) at h)
    ];
    announced = λ d r h. elim (channel_cases chid d) [
      | inl e ↦
          subst
            (λ x.
              (or_new x (find by_channel (insert by_channel chid c t.dt_channels) x)).opened
                ≡ some r
              → load_in t.request_id_to_channel_id r ≡ some x)
            e (λ g. next r (rw (find-insert by_channel chid c t.dt_channels) at g)) h
      | inr other ↦
          v.announced d r (rw (find-insert_other by_channel chid d c t.dt_channels other) at h)
    ];
    tracked = λ r d h missing. elim (channel_cases chid d) [
      | inl e ↦
          subst (λ x. find by_channel (insert by_channel chid c t.dt_channels) x ≢ none) e
            (put_channel-Tracks t chid c) missing
      | inr other ↦
          v.tracked r d h
            (sym (find-insert_other by_channel chid d c t.dt_channels other) ∙ missing)
    ];
  }

  -- A request is given to a tracked channel.
  pub set_request-Linked :
      (t : Transport W E) (r : RequestId) (sending : Bool) (chid : ChannelId)
      → Linked t
      → Tracks t chid
      → Free t r chid
      → Linked (set_request r sending chid t)
  set_request-Linked t r sending chid v there free = record {
    current = λ d q h. keeps d q (v.current d q h);
    announced = λ d q h. keeps d q (v.announced d q h);
    tracked = λ q d h. elim (request_cases r q) [
      | inl e ↦
          let same : chid ≡ d = some_eq (
            sym (load_in-insert t.request_id_to_channel_id r info)
            ∙ subst (λ x. load_in (insert by_request r info t.request_id_to_channel_id) x ≡ some d)
                (sym e) h) in
          subst (λ x. find by_channel t.dt_channels x ≢ none) same there
      | inr other ↦
          v.tracked q d (sym (load_in-insert_other t.request_id_to_channel_id r q info other) ∙ h)
    ];
  }
    where
      info : ChannelInfo
      info = record { sending = sending; channel_id = chid }

      keeps :
          (d : ChannelId) (q : RequestId)
          → load_in t.request_id_to_channel_id q ≡ some d
          → load_in (insert by_request r info t.request_id_to_channel_id) q ≡ some d
      keeps d q h = elim (request_cases r q) [
        | inl e ↦
            let old : load_in t.request_id_to_channel_id r ≡ some d =
              subst (λ x. load_in t.request_id_to_channel_id x ≡ some d) (sym e) h in
            subst (λ x. load_in (insert by_request r info t.request_id_to_channel_id) x ≡ some d) e
              (load_in-insert t.request_id_to_channel_id r info ∙ ap some (sym (free d old)))
        | inr other ↦ load_in-insert_other t.request_id_to_channel_id r q info other ∙ h
      ]

  -- A channel goes, and with it its requests.
  pub untrack-Linked :
      (t : Transport W E) (chid : ChannelId) → Linked t → Linked (delete_refs chid (untrack chid t))
  untrack-Linked t chid v = record {
    current = λ d r h. elim (channel_cases chid d) [
      | inl e ↦ absurd (
          gone (
            subst
              (λ x.
                (or_new x (find by_channel (remove by_channel chid t.dt_channels) x)).request_id
                ≡ some r)
              (sym e) h))
      | inr other ↦
          stays d r other
            (v.current d r (rw (find-remove_other by_channel chid d t.dt_channels other) at h))
    ];
    announced = λ d r h. elim (channel_cases chid d) [
      | inl e ↦ absurd (
          quiet (
            subst
              (λ x.
                (or_new x (find by_channel (remove by_channel chid t.dt_channels) x)).opened
                ≡ some r)
              (sym e) h))
      | inr other ↦
          stays d r other
            (v.announced d r (rw (find-remove_other by_channel chid d t.dt_channels other) at h))
    ];
    tracked = λ r d h missing.
        let (other, old) =
          unless_of-some chid d (load_in t.request_id_to_channel_id r)
            (sym (load_in-without chid t.request_id_to_channel_id r) ∙ h) in
        v.tracked r d old (sym (find-remove_other by_channel chid d t.dt_channels other) ∙ missing);
  }
    where
      gone :
          {r : RequestId}
          → (or_new chid (find by_channel (remove by_channel chid t.dt_channels) chid)).request_id
            ≡ some r
          → ⊥
      gone h = let g = (rw (find-remove by_channel chid t.dt_channels) at h) in cc

      quiet :
          {r : RequestId}
          → (or_new chid (find by_channel (remove by_channel chid t.dt_channels) chid)).opened
            ≡ some r
          → ⊥
      quiet h = let g = (rw (find-remove by_channel chid t.dt_channels) at h) in cc

      stays :
          (d : ChannelId) (r : RequestId)
          → chid ≢ d
          → load_in t.request_id_to_channel_id r ≡ some d
          → load_in (without chid t.request_id_to_channel_id) r ≡ some d
      stays d r other old =
          load_in-without chid t.request_id_to_channel_id r
          ∙ (ap (unless_of chid) old ∙ unless_of-other chid d other)
