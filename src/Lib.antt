-- ===== src/Lib.antt =====
-- A verification library for the core of an OPC UA stack with PubSub over time-sensitive
-- networks: the binary coding of the protocol's types, the coding of PubSub messages, the
-- secure channel, the subscriptions of the server, and the timer that its event loop and the
-- publishers run on.
--
-- The parts and how they interact:
--  * Timer, with the children Run, Sorted, Dispatch and Registry, is src/ua_timer.c. `Timer` is
--    UA_Timer, with its sorted list of entries and its queue of changes; `add_repeated_callback`,
--    `change_repeated_callback_interval` and `remove_repeated_callback` are the calls of the same
--    name, which only queue a change; `process_changes` is processChanges; `Run.process` is
--    UA_Timer_process. The callbacks of the application are a parameter, a function that gives
--    the next state of the application and the calls of the timer that it makes.
--  * Codec, with its children, is src/ua_types_encoding_binary.c. `Ctx` is the encoding context:
--    the buffer, the room in it, the buffers that the exchange callback has taken, and that
--    callback. An encoder turns a context into a status and a context. A decoder turns the bytes
--    that are left into a status, a value and the bytes that are left then. Words has the numeric
--    types, Arrays the arrays of overlayable elements and the strings, NodeIds the Guids, NodeIds
--    and ExpandedNodeIds, Texts the QualifiedNames and LocalizedTexts, DataValues the DataValues.
--    Output says what an encoder writes across all its buffers: `Codes` is the contract of the
--    coding of a type. Discipline is about the rule on chunking that the source states in a
--    comment: Encoders keep it, and Violation has one that does not.
--  * PubSub, with its children, is src/pubsub/ua_pubsub_networkmessage.c: DataSetHeader is the
--    header of a DataSetMessage, DataSetMessage the message with its fields, PublisherId,
--    GroupHeader, SecurityHeader and Footer are those parts of a network message, NetworkMessage
--    has the message with its encoder and its size, and NetworkMessage.Decoding the decoder. It
--    calls the encoders of Codec through UA_encodeBinary without an exchange callback, one after
--    the other on the same buffer.
--  * Subscription, with its children, is about server/ua_subscription.c, the queue of monitored
--    items in server/ua_subscription_datachange.c, server/ua_session.c and
--    server/ua_services_subscription.c. `Subscription` is UA_Subscription. A monitored item is
--    known by its identifier, and its settings and its queue are functions of that; a notification
--    is known by its item and a number, so that the two lists it stands in name the same thing.
--    Subscription has the queueing of notifications, Queues the proofs on it; Publish has
--    UA_Subscription_publish and its children what becomes of notifications and requests; Services
--    has the subscriptions of a session and the services that create and change them, and
--    Services.Publishing Service_Publish and Service_Republish. What malloc, the clock and the
--    secure channel answer during publishing is the record `Server`.
--  * SecureChannel, with its children, is src/ua_securechannel.c. `SecureChannel` is
--    UA_SecureChannel; SecureChannel has tokens, sequence numbers and the list of incomplete
--       messages, Replay and Assembly the proofs on the last two. Receiving is decryptChunk,
--    and    Receiving.Processing UA_SecureChannel_processChunk, on the bytes of a chunk; a read
--    outside    the chunk is `none`. Sending is sendSymmetricChunk, and Sending.Contexts has
--    the functions of    UA_MessageContext around it; a chunk that is written outside its
--    buffer is `none`. The security policy, the network    layer and the callback for complete
--    messages are parameters. Sending.RoundTrip brings the two    directions together, under
--    the contract `IsPeer` on the cryptography. Manager is
--    server/ua_securechannel_manager.c, with the clocks as arguments.
--  * Base has the helpers that all parts share: Boolean tests and lists on the native numbers,
--    and in Bits the setting and testing of flags in a byte, with tables that are checked by
--    evaluation.
--  * Examples has the theorems at concrete inputs.
--
-- The coding of Variants is an interface, `Codec.DataValues.VariantCodec`: the operations that
-- DataValues and PubSub messages call, and the contract `Codes` as a law. Malloc and the clock
-- are arguments of the operations of the timer that ask them.
--
-- Bounds and fuel: bytes and words are natural numbers, and every store into a byte or a word is
-- written out with its remainder. A UA_DateTime of the timer is its offset from UA_INT64_MIN;
-- sums of times are not wrapped, since their overflow is undefined in C. The loop of
-- Array_encodeBinaryOverlayable has fuel for two rounds more than there are bytes, which is enough
-- since each round but the first takes an element; that the fuel does not run out is proved. The
-- loops over a security footer have fuel for 256 rounds more than there is room, or there are
-- bytes. The loop over promoted fields has fuel for the bytes of their size, and a field takes a
-- byte at least. The loop of MonitoredItem_ensureQueueSpace has fuel for the size of the queue and
-- one round more; that this is enough is part of the theorems on `enqueue`. All other loops are
-- structural recursion.
--
-- Not modelled: the lock-free queue below the changes of the timer is the list of its entries,
-- oldest first, so the interleavings of several producers are left out; ExtensionObjects,
-- Variants, DiagnosticInfos, floating point numbers and the tables of types of the codec; memory
-- that a decoder cannot get. Of subscriptions: the build with events, sampling and filters, the
-- services on monitored items, and the order and the equality of Doubles, which are parameters of the
-- settings for the publishing interval. The other services of the server, the client, the keys and
-- asymmetric messages of the secure channel, the node store and the plugins are not here, nor
-- are the third-party sources under deps, the generators under tools, the examples and the
-- tests.
pub mod Base
pub mod Timer
pub mod Codec
pub mod PubSub
pub mod Subscription
pub mod SecureChannel
pub mod Examples
