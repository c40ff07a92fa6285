-- ===== src/Lib.antt =====
-- go-data-transfer negotiates and tracks transfers of content-addressed data between two peers. A
-- transfer is a channel. Each peer stores a state for each channel and moves it by events in a finite
-- state machine; the transport reports blocks, the other peer's messages and failures, and the
-- manager turns each report into an event. This library models the code that keeps that state.
--
-- The parts and their files, with the code that each stands for:
--   * Statuses, Events, Errors, Types: statuses.go, events.go, errors.go, types.go. Types/Stages has
--     the timeline of a channel (`ChannelStages.AddLog`, `GetStage`).
--   * Channels/Internal: the stored state, channels/internal/internalchannel.go.
--   * Channels/Fsm: channels/channels_fsm.go. Fsm/Progress, Settings, Pausing and Lifecycle have one
--     `EventDesc` for each entry of `ChannelEvents`, under the event's name, with its transitions and
--     its action; Fsm/Events is the table; Fsm/Finality has the entry functions and the cleaning and
--     final states. Fsm/Engine is what go-statemachine does with such a table. Fsm/Machine runs a
--     channel on a list of events, and its children prove what the table implies.
--   * Channels/Migrations: channels/internal/migrations/migrations.go, the migration of a stored state.
--   * Channels/State: the accessors of channels/channel_state.go that compute something.
--   * Channels/Caches: channels/caches.go, the cache of block indexes and the cache of progress and
--     data limits; Caches/Race is the compare-and-swap loop of `updateIfGreater` under interleaving.
--   * Channels/Group and Channels/Ops: channels/channels.go. Each method of `Channels` is a function on
--     the store and the two caches that returns an optional error; Ops/Progress has `DataSent`,
--     `DataQueued`, `DataReceived` and what they call, and its children prove what they do.
--   * Messages: message/message1_1prime and message/types. Messages/Request and Messages/Response are
--     the two structs with their accessors, Messages/Build the functions that make them, and
--     Messages/Wire what is sent and read; how go-ipld-prime encodes a message, and that it
--     reads a null node back as none, is the record `Codec`.
--   * Validation: `ValidationResult` of manager.go. Registry: registry/registry.go.
--   * Manager: impl. Manager itself has impl/utils.go and the reports of impl/events.go that the
--     operations of Channels/Ops are enough for. Manager/World is the state of the manager and a
--     computation on it, and the others are such computations: Manager/Lifecycle a new manager and its registrations,
--     Manager/Commands the user's calls of
--     impl/impl.go, Manager/Requests and Manager/Outcomes impl/receiving_requests.go, Manager/Restart
--     impl/restart.go, Manager/Receiver impl/receiver.go, Manager/Reports the rest of impl/events.go.
--     Manager/Rules has the rules by which their children reason.
--   * ChannelMonitor: channelmonitor/channelmonitor.go. The file itself has the set of watched channels,
--     ChannelMonitor/Channel a monitored channel, with one function for what runs under one lock, and
--     ChannelMonitor/Goroutines its goroutines as program counters, in any order of their steps.
--   * Network: network/libp2p_impl.go, the opening of a stream with its retries, the sending of a
--     message, and the handing on of what comes in; Network/Options has what a network is set up with.
--   * Transport: transport/graphsync. Transport/Extension is extension/gsextension.go, and the others
--     are graphsync.go: Transport/World the state of the transport, of a `dtChannel` and of what is
--     called, with the interface `EventsHandler` of transport.go, Transport/Tracking the two maps,
--     Transport/Channel the methods of `dtChannel`, Transport itself those of `Transport`,
--     Transport/Hooks the hooks and listeners, and Transport/Messaging those that carry a message.
--     Transport/Managed makes the manager the handler. Linked, Opening, Pending and Cleaning prove what
--     these do, by the rules of Transport/Rules.
--   * Timeline: what the logs of types.go add up to. Examples: runs at concrete inputs.
--
-- A block that the transport reports goes to `DataReceived` or its like, which asks the caches whether
-- it is new and whether it passes the limit, and sends the state machine of the channel the events that
-- count it, stop it and log it. A message of the other peer, or a call of the user, becomes one of the
-- other operations of Channels/Ops, and each of those is one event for that machine.
--
-- Requests come in at Manager/Receiver, pass Manager/Requests and the validator of the client, and are
-- recorded by Manager/Outcomes in Channels/Ops; the answer goes back to the other peer or to the
-- transport. A restart goes from Manager/Restart of one peer to Manager/Restart of the other; the
-- channel monitor asks for it when the transport reports errors, and ends the channel if it fails.
--
-- How the code is represented. Peer IDs, CIDs and IPLD nodes are tokens, natural numbers, of which 0 is
-- the zero value; a pointer or a node that may be nil is an `Option`. An int64 that the program only
-- compares is an integer, a uint64 is a natural number, and a sum of them is taken modulo 2^64. An
-- index out of range, where Go panics, is `none`. Errors are values of `Err`; the events that carry an
-- error carry its text. The clock is an argument. A Go map is a function or a list of pairs.
--
-- What stands for other packages is a parameter with laws. `Engine` says of go-statemachine what its
-- documentation says: the action runs first and the status moves after it, a transition from a named
-- status comes before one from any status, a final status takes no event, and a transition that the
-- table does not have leaves the state as it is. `Group` says of `fsm.Group` over the datastore that a
-- state is stored under its name, is what the last event made of it, and is not touched by an event of
-- another. `documented_engine` and `memory_group` fill them. Of a code that runs under a mutex one call
-- is one step; the loop that runs without one is modelled step by step in Caches/Race.
--
-- The network, the transport, the validators and the configurers are interfaces. In Manager/World what
-- they are asked is a list of calls in the state, and the answer to a call is a parameter that may depend
-- on all the calls before it. A panic, such as a nil channel state that is read, is `none`. An error that
-- is printed keeps its fixed text and what it wraps, and leaves out the identifiers. Of the goroutine
-- that sends the message of a cancel, whether it is before or after the event is an argument.
--
-- Two loops run on fuel. `do_restart_channel`, in ChannelMonitor/Channel, tries again to send a restart
-- message: one round more than the attempts that are left to the limit is enough. `open_stream`, in
-- Network, has a round for each attempt that is allowed. `settle`, in Fsm/Machine/Cleanup, has no fuel: it
-- is one event, the entry function that this runs, and the one event which that triggers; whether more is
-- set off is the matter of Fsm/Machine/Resting.
--
-- In Transport, graphsync is a parameter too: what the transport asks of it, and of the actions that it
-- hands to a hook, is a list of calls in the state. A pointer to a channel is the ID of the channel. A
-- method or a hook that waits for a lock is not modelled: each is one step. What ends a wait for
-- another goroutine is the context, which is a parameter; `open` waits for the hook that announces its
-- request, so what the other goroutines do meanwhile is an argument of it; a wait that never ends is
-- `none`, as a panic is. The manager is one handler of the events of the transport, in
-- Transport/Managed; what it asks of the transport there is recorded, and not carried out.
--
-- Not modelled: the notifier and the subscribers, the start and the stop of the manager, logs and
-- tracing, CBOR encoding, and the listeners of the
-- graphsync transport that tests use. In the channel monitor the timers, the debouncing and the backoff are only the order of
-- the steps.
pub mod Base
pub mod ChannelMonitor
pub mod Channels
pub mod Errors
pub mod Events
pub mod Examples
pub mod Manager
pub mod Messages
pub mod Network
pub mod Registry
pub mod Statuses
pub mod Timeline
pub mod Transport
pub mod Types
pub mod Validation
