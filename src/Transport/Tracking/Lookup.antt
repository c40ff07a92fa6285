-- ===== src/Transport/Tracking/Lookup.antt =====
-- What the maps of the transport hold after a change of them.
use go_data_transfer.Base.{
  ◌≡◌, ◌≢◌, ◌⊎◌, inl, inr, refl, ap, sym, subst, ◌∙◌, Bool, true, false, List, [], ◌∷◌, Option,
  none, some, ◌==◌, if◌then◌else◌, Bool-cases, Option-cases, find, insert, remove, find-insert,
  find-insert_other, find-remove, find-remove_other, ==_iff,
}
use go_data_transfer.Types.{ChannelId, channel_id_eq, channel_id_eq_iff}
use go_data_transfer.Transport.World.{
  RequestId, ChannelInfo, DtChannel, Transport, by_channel, by_request,
}
use go_data_transfer.Transport.Tracking.{
  or_new, held, put_channel, load_in, channel_of_info, without, track_dt_channel, new_dt_channel,
}

clash : {b : Bool} → b ≡ true → b ≡ false → ⊥
clash p q = cc

pub channel_cases : (a b : ChannelId) → (a ≡ b) ⊎ (a ≢ b)
channel_cases a b = elim (Bool-cases (channel_id_eq a b)) [
  | inl hit ↦ inl ((channel_id_eq_iff a b).0 hit)
  | inr miss ↦ inr λ e. clash ((channel_id_eq_iff a b).1 e) miss
]

pub request_cases : (a b : RequestId) → (a ≡ b) ⊎ (a ≢ b)
request_cases a b = elim (Bool-cases (a == b)) [
  | inl hit ↦ inl ((==_iff a b).0 hit)
  | inr miss ↦ inr λ e. clash ((==_iff a b).1 e) miss
]

module _ {W E : Type 0} where
  pub held-put_channel :
      (t : Transport W E) (chid : ChannelId) (c : DtChannel W)
      → held (put_channel chid c t) chid ≡ c
  held-put_channel t chid c = ap (or_new chid) (find-insert by_channel chid c t.dt_channels)

  pub held-put_other :
      (t : Transport W E) (chid d : ChannelId) (c : DtChannel W)
      → chid ≢ d
      → held (put_channel chid c t) d ≡ held t d
  held-put_other t chid d c other =
      ap (or_new d) (find-insert_other by_channel chid d c t.dt_channels other)

  -- Tracking a channel does not change what its pointer points to.
  pub held-track_dt_channel :
      (t : Transport W E) (chid d : ChannelId) → held (track_dt_channel chid t) d ≡ held t d
  unfolding track_dt_channel
  held-track_dt_channel t chid d = elim (Option-cases (find by_channel t.dt_channels chid)) [
    | inr (c, there) ↦ rw (track_dt_channel, there) refl
    | inl missing ↦ elim (channel_cases chid d) [
      | inl e ↦
          rw (track_dt_channel, missing)
            (subst
              (λ x.
                or_new x
                  (find by_channel (insert by_channel chid (new_dt_channel chid) t.dt_channels) x)
                ≡ or_new x (find by_channel t.dt_channels x))
              e
              (ap (or_new chid) (find-insert by_channel chid (new_dt_channel chid) t.dt_channels)
                ∙ ap (or_new chid) (sym missing)))
      | inr other ↦
          rw (track_dt_channel, missing) (held-put_other t chid d (new_dt_channel chid) other)
    ]
  ]

pub load_in-insert :
    (m : List (RequestId × ChannelInfo)) (r : RequestId) (i : ChannelInfo)
    → load_in (insert by_request r i m) r ≡ some i.channel_id
load_in-insert m r i = ap channel_of_info (find-insert by_request r i m)

pub load_in-insert_other :
    (m : List (RequestId × ChannelInfo)) (r q : RequestId) (i : ChannelInfo)
    → r ≢ q
    → load_in (insert by_request r i m) q ≡ load_in m q
load_in-insert_other m r q i other = ap channel_of_info (find-insert_other by_request r q i m other)

-- The channel of a request, unless it is this one.
abbrev pub unless_of : ChannelId → Option ChannelId → Option ChannelId
unless_of chid none = none
unless_of chid (some d) = if channel_id_eq d chid then none else some d

pub load_in-without :
    (chid : ChannelId) (m : List (RequestId × ChannelInfo)) (q : RequestId)
    → load_in (without chid m) q ≡ unless_of chid (load_in m q)
unfolding without find
load_in-without chid [] q = refl
load_in-without chid ((r, i) ∷ m) q =
    let rest = load_in-without chid m q in
    elim (Bool-cases (channel_id_eq i.channel_id chid)) [
      | inl hit ↦ elim (Bool-cases (r == q)) [
        | inl same ↦
            rw (hit, same, hit)
              (subst (λ x. load_in (remove by_request r (without chid m)) x ≡ none)
                ((==_iff r q).0 same)
                (ap channel_of_info (find-remove by_request r (without chid m))))
        | inr differ ↦
            rw (hit, differ)
              (ap channel_of_info (
                  find-remove_other by_request r q (without chid m)
                    λ e. clash ((==_iff r q).1 e) differ)
                ∙ rest)
      ]
      | inr miss ↦ elim (Bool-cases (r == q)) [
        | inl same ↦ rw (without, miss, find, same, miss) refl
        | inr differ ↦ rw (without, miss, find, differ) rest
      ]
    ]
