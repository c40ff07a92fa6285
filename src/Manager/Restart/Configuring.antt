-- ===== src/Manager/Restart/Configuring.antt =====
-- The configurers that impl/impl.go, impl/restart.go and impl/receiving_requests.go run.
use go_data_transfer.Base.{◌≡◌, refl, Option-cases, inl, inr}
use go_data_transfer.Types.{ChannelId, TypedVoucher}
use go_data_transfer.Channels.Group.{Group}
use go_data_transfer.Registry.{processor}
use go_data_transfer.Manager.World.{Manager}
use go_data_transfer.Manager.Rules.{Ends}
use go_data_transfer.Manager.Restart.{configure_transport}

module _ (g : Group) where
  pub configure_transport_keeps :
      (chid : ChannelId) (v : TypedVoucher) (s : Manager g)
      → Ends (λ s' a. s'.channels ≡ s.channels) (configure_transport chid v s)
  unfolding configure_transport
  configure_transport_keeps chid v s =
      elim (Option-cases (processor s.transport_configurers v.type_id)) [
        | inl h ↦ rw (h, Ends) refl
        | inr (c, h) ↦ rw (h, Ends) refl
      ]
