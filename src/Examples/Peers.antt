-- ===== src/Examples/Peers.antt =====
-- The managers of the examples, and what they are set up with.
use go_data_transfer.Base.{ℕ, Bool, true, false, [], ◌∷◌, Option, none, some, ◌==◌, if◌then◌else◌}
use go_data_transfer.Types.{Node, channel_id_eq}
use go_data_transfer.Channels.Internal.{ChannelState}
use go_data_transfer.Channels.Group.Stored.{memory_group}
use go_data_transfer.Channels.Ops.{Channels}
use go_data_transfer.Validation.{ValidationResult}
use go_data_transfer.Manager.World.{Setup, Manager, Validator}
use go_data_transfer.Examples.Samples.{sample_id, sample_channels}

abbrev same_node : Option Node → Option Node → Bool
same_node (some a) (some b) = a == b
same_node none none = true
same_node _ _ = false

-- The network and the transport have no errors.
abbrev pub setup_of : ℕ → Setup
setup_of self = record {
  peer_id = self;
  pauseable = true;
  null = 0;
  deep_equal = same_node;
  text = λ e. "error";
  answer = λ earlier k. none;
}

abbrev pub more : ValidationResult
more = record {
  accepted = true;
  voucher_result = none;
  force_pause = false;
  data_limit = 100;
  requires_finalization = true;
}

abbrev pub willing : Validator
willing = record {
  validate_push = λ chid sender v base_cid selector. (more, none);
  validate_pull = λ chid receiver v base_cid selector. (more, none);
  validate_restart = λ chid chst. (more, none);
}

abbrev pub manager_with : Channels memory_group → Manager memory_group
manager_with c = record {
  channels = c;
  validated_types = ("V", willing) ∷ [];
  transport_configurers = [];
  channel_monitor = record { cfg = none; channels = [] };
  transfer_id_gen = 0;
  calls = [];
}

abbrev pub sample_manager : Manager memory_group
sample_manager = manager_with sample_channels

abbrev pub holding : ChannelState → Channels memory_group
holding ch = record sample_channels {
  store = record {
    time = 100;
    channels = λ c. if channel_id_eq sample_id c then some ch else none;
  };
}
