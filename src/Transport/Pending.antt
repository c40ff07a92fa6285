-- ===== src/Transport/Pending.antt =====
-- What becomes of a message that is to be sent while the other peer has cancelled its request.
use go_data_transfer.Base.{
  ◌≡◌, inl, inr, refl, sym, ap, subst, ◌∙◌, Bool, true, false, List, [], ◌∷◌, ◌++◌, Option, some,
  String, Bool-cases, if◌then◌else◌,
}
use mathlib.Core.List.{append-nil, append_assoc}
use go_data_transfer.Types.{ChannelId}
use go_data_transfer.Errors.{Result, Result-cases, ok, err}
use go_data_transfer.Messages.Wire.{Message, Codec}
use go_data_transfer.Transport.Extension.{ExtensionData}
use go_data_transfer.Transport.World.{
  RequestId, GsCall, send_extension_data, use_persistence_option, DtChannel, Transport, Graphsync,
  Act, ◌>>◌, done,
}
use go_data_transfer.Transport.Tracking.{held, put_channel, load}
use go_data_transfer.Transport.Tracking.Lookup.{held-put_channel, load_in-insert}
use go_data_transfer.Transport.Channel.{
  resume, extensions_of, gs_data_request_rcvd, take_request, send_pending,
}
use go_data_transfer.Transport.Rules.{Returns, Returns-bind, told, tell_all-told}

abbrev pub made_of : {A : Type 0} → Result (List A) → List A
made_of (err e) = []
made_of (ok xs) = xs

-- The extensions of all the messages that can be encoded.
abbrev pub encoded_all :
    (k : Codec) → List String → List (Option Message) → List (ExtensionData k.Wire)
encoded_all k supported [] = []
encoded_all k supported (m ∷ ms) =
    made_of (extensions_of k m supported) ++ encoded_all k supported ms

module _ (k : Codec) {E : Type 0} (p : Graphsync k.Wire) (chid : ChannelId) where
  -- `ResumeChannel` with one message after the other, the errors passed over.
  abbrev pub resume_all : List (Option Message) → Act (Transport k.Wire E) (Unit {0})
  resume_all [] = done tt
  resume_all (m ∷ ms) = let rest = resume_all ms in resume k p chid m >> rest

  -- The request is taken, and what waited is sent with it.
  pub record Taken (store : Bool) (calls : List (GsCall k.Wire)) (r : RequestId)
      (exts : List (ExtensionData k.Wire)) (s : Transport k.Wire E) : Type 0 where
    pub back : (held s chid).requester_cancelled ≡ false
    pub empty : (held s chid).pending_extensions ≡ []
    pub current : (held s chid).request_id ≡ some r
    pub mapped : load s r ≡ some chid
    pub sent : s.gs_calls ≡ (
        if store
        then use_persistence_option chid ∷ told send_extension_data exts calls
        else told send_extension_data exts calls)

  module _ (q : RequestId) (store : Bool) (calls : List (GsCall k.Wire))
      (supported : List String) where
    -- The requester has cancelled, and these extensions wait.
    record Queues (exts : List (ExtensionData k.Wire)) (s : Transport k.Wire E) : Type 0 where
      has : (held s chid).request_id ≡ some q
      off : (held s chid).requester_cancelled ≡ true
      waiting : (held s chid).pending_extensions ≡ exts
      stored : (held s chid).store_registered ≡ store
      same : s.gs_calls ≡ calls
      sup : s.supported_extensions ≡ supported

    -- What waited is sent.
    record Sends (sent_calls : List (GsCall k.Wire)) (s : Transport k.Wire E) : Type 0 where
      back : (held s chid).requester_cancelled ≡ false
      empty : (held s chid).pending_extensions ≡ []
      stored : (held s chid).store_registered ≡ store
      sent : s.gs_calls ≡ sent_calls

    resume-Queues :
        (m : Option Message) (exts : List (ExtensionData k.Wire)) (s : Transport k.Wire E)
        → Queues exts s
        → Returns
            (λ s' e. Queues (exts ++ made_of (extensions_of k m supported)) s')
            (resume k p chid m s)
    unfolding resume
    resume-Queues m exts s w = elim (Result-cases (extensions_of k m s.supported_extensions)) [
      | inl (e, failed) ↦
          let no_more = ap (λ x. made_of (extensions_of k m x)) (sym w.sup) ∙ ap made_of failed in
          rw (Returns, resume, w.has, failed)
            (record {
              has = w.has;
              off = w.off;
              waiting = w.waiting ∙ sym (ap (λ x. exts ++ x) no_more ∙ append-nil exts);
              stored = w.stored;
              same = w.same;
              sup = w.sup;
            })
      | inr (es, made) ↦
          let more = ap (λ x. made_of (extensions_of k m x)) (sym w.sup) ∙ ap made_of made in
          let c : DtChannel k.Wire = record (held s chid) {
            requester_cancelled = true;
            pending_extensions = (held s chid).pending_extensions ++ es;
          } in
          let is = held-put_channel s chid c in
          rw (Returns, resume, w.has, made, w.off)
            (record {
              has = ap (λ x. x.request_id) is ∙ w.has;
              off = ap (λ x. x.requester_cancelled) is;
              waiting =
                  ap (λ x. x.pending_extensions) is
                  ∙ (ap (λ x. x ++ es) w.waiting ∙ ap (λ x. exts ++ x) (sym more));
              stored = ap (λ x. x.store_registered) is ∙ w.stored;
              same = w.same;
              sup = w.sup;
            })
    ]

    resume_all-Queues :
        (ms : List (Option Message)) (exts : List (ExtensionData k.Wire)) (s : Transport k.Wire E)
        → Queues exts s
        → Returns (λ s' a. Queues (exts ++ encoded_all k supported ms) s') (resume_all ms s)
    resume_all-Queues [] exts s w = rw (append-nil exts) w
    resume_all-Queues (m ∷ ms) exts s w =
        Returns-bind _ _ (resume k p chid m) _ s (resume-Queues m exts s w) λ s' e w'.
          subst (λ x. Returns (λ s2 a. Queues x s2) (resume_all ms s'))
            (append_assoc exts (made_of (extensions_of k m supported)) (encoded_all k supported ms))
            (resume_all-Queues ms (exts ++ made_of (extensions_of k m supported)) s' w')

    send_pending-Sends :
        (exts : List (ExtensionData k.Wire)) (s : Transport k.Wire E)
        → Queues exts s
        → Returns (λ s' a. Sends (told send_extension_data exts calls) s') (send_pending chid s)
    unfolding send_pending
    send_pending-Sends exts s w =
        let c : DtChannel k.Wire = record (held s chid) {
          requester_cancelled = false;
          pending_extensions = [];
        } in
        let is = held-put_channel s chid c in
        rw
          (
            Returns,
            send_pending,
            w.off,
            tell_all-told send_extension_data (held s chid).pending_extensions
                (put_channel chid c s),
          )
          (record {
            back = ap (λ x. x.requester_cancelled) is;
            empty = ap (λ x. x.pending_extensions) is;
            stored = ap (λ x. x.store_registered) is ∙ w.stored;
            sent =
                ap (λ x. told send_extension_data x s.gs_calls) w.waiting
                ∙ ap (told send_extension_data exts) w.same;
          })

    gs_data_request_rcvd-Taken :
        (r : RequestId) (exts : List (ExtensionData k.Wire)) (s : Transport k.Wire E)
        → Queues exts s
        → Returns (λ s' a. Taken store calls r exts s') (gs_data_request_rcvd chid r s)
    unfolding gs_data_request_rcvd take_request
    gs_data_request_rcvd-Taken r exts s w =
        Returns-bind _ (λ s' a. Taken store calls r exts s') (send_pending chid) _ s
          (send_pending-Sends exts s w) λ s' a v. taken s' v
      where
        taken :
            (s' : Transport k.Wire E)
            → Sends (told send_extension_data exts calls) s'
            → Returns (λ s2 a. Taken store calls r exts s2) (take_request chid r s')
        taken s' v = elim (Bool-cases (held s' chid).store_registered) [
          | inl yes_store ↦
              let is_true : store ≡ true = sym v.stored ∙ yes_store in
              rw (Returns, take_request, yes_store)
                (record {
                  back = ap (λ x. x.requester_cancelled) (held-put_channel s' chid _) ∙ v.back;
                  empty = ap (λ x. x.pending_extensions) (held-put_channel s' chid _) ∙ v.empty;
                  current = ap (λ x. x.request_id) (held-put_channel s' chid _);
                  mapped = load_in-insert s'.request_id_to_channel_id r _;
                  sent = rw is_true (ap (λ x. use_persistence_option chid ∷ x) v.sent);
                })
          | inr no_store ↦
              let is_false : store ≡ false = sym v.stored ∙ no_store in
              rw (Returns, take_request, no_store)
                (record {
                  back = ap (λ x. x.requester_cancelled) (held-put_channel s' chid _) ∙ v.back;
                  empty = ap (λ x. x.pending_extensions) (held-put_channel s' chid _) ∙ v.empty;
                  current = ap (λ x. x.request_id) (held-put_channel s' chid _);
                  mapped = load_in-insert s'.request_id_to_channel_id r _;
                  sent = rw is_false v.sent;
                })
        ]

  -- While the requester has cancelled its request, no call of `ResumeChannel` sends its message; the
  -- next request for data takes the extensions of all of them that could be encoded, each once and in
  -- their order, behind those that waited before, and then none waits any more.
  pub gs_data_request_rcvd-resume_all :
      (t : Transport k.Wire E) (q r : RequestId) (ms : List (Option Message))
      → (held t chid).request_id ≡ some q
      → (held t chid).requester_cancelled ≡ true
      → Returns
          (λ s a.
            Taken
              (held t chid).store_registered
              t.gs_calls
              r
              ((held t chid).pending_extensions ++ encoded_all k t.supported_extensions ms)
              s)
          ((resume_all ms >> gs_data_request_rcvd chid r) t)
  gs_data_request_rcvd-resume_all t q r ms has off =
      let store = (held t chid).store_registered in
      let calls = t.gs_calls in
      let supported = t.supported_extensions in
      let pending = (held t chid).pending_extensions in
      Returns-bind _ _ (resume_all ms) _ t
        (resume_all-Queues q store calls supported ms pending t
          (record { has = has; off = off; waiting = refl; stored = refl; same = refl; sup = refl }))
        λ s a w.
          gs_data_request_rcvd-Taken q store calls supported r
            (pending ++ encoded_all k supported ms) s w
