-- ===== src/Lib.antt =====
-- rsocket-py, a Python implementation of the RSocket protocol.
--
-- The program turns frames into bytes and back (rsocket/frame.py with rsocket/frame_helpers.py),
-- cuts a received byte stream into frames (rsocket/frame_parser.py), splits and joins large
-- payloads, and drives streams over a connection. This library models the wire layer,
-- fragmentation, the control of streams, the leases, the connection, the stream handlers, the client
-- and the choice of a route: a builder makes a frame, the fragmenter cuts it, `serialize` writes the
-- fragments, the other side's parser cuts the bytes, `parse` reads them, the cache rejoins them, and
-- the stream control hands the frame to its stream.
--
--   Prelude        shared names; exceptions as values (rsocket/exceptions.py)
--   Bytes          byte strings, slices with Python's negative indices, `struct.pack` and `unpack`,
--                  and which bytes `decode` accepts (Utf8)
--   FrameHelpers   rsocket/frame_helpers.py, the branch without the package cbitstruct
--   Frame          rsocket/frame.py: Codes (constants, `FrameType`, rsocket/error_codes.py), Slots
--                  (the objects), Parse (`parse_or_ignore` and the methods `parse`), Serialize
--                  (`serialize_frame_prefix` and its users); the other children hold proofs
--   FrameParser    rsocket/frame_parser.py, `receive_data`
--   FrameFragmenter     rsocket/frame_fragmenter.py and rsocket/fragment.py; the frames of the
--                  fragments (`new_frame_fragment`, `get_next_fragment`) are in Frame.Fragmenting
--   FrameFragmentCache  rsocket/frame_fragment_cache.py
--   StreamControl  rsocket/stream_control.py; stream handlers are parameters
--   DatetimeHelpers, Lease, FrameBuilders  the files of rsocket/ of these names
--   Extensions     rsocket/extensions: Tables (mimetypes.py, authentication_types.py), WellKnown (with
--                  rsocket/helpers.py), Tagging, Authentication, Composite, Helpers
--   RequestChannel rsocket/handlers/request_cahnnel_common.py with the requester and the responder
--                  of a channel; their calls outside are effects
--   Connection     rsocket/rsocket_base.py: the socket with its queues; Sending (what puts frames into
--                  the queues), Sender (`_get_next_frame_to_send`), Receiving (the handlers of
--                  the frame classes, with the interfaces of the application and of the stream
--                  handlers), Receiver (dispatch, loop and end), Requesting (the requests of this
--                  side); the other children hold proofs
--   Client         rsocket/rsocket_client.py: the watch over keep-alive frames, and reconnection
--   Handlers       rsocket/handlers and rsocket/streams/stream_handler.py: StreamRequester,
--                  StreamResponder, RequestResponse (requester and responder); the others are proofs,
--                  of which Crossing takes the frames of a publisher over the wire
--   LoadBalancer   rsocket/load_balancer/round_robin.py
--   Collector      rsocket/awaitable/collector_subscriber.py
--   StreamFromGenerator  rsocket/streams/stream_from_generator.py, its two tasks as events
--   Transports     rsocket/transports/tcp.py
--   Routing        rsocket/routing, with `require_route` of rsocket/extensions/helpers.py; the methods
--                  of the application, with the collection of their arguments, are a parameter;
--                  Handler is the routing handler as a handler of a connection
--   Tests          runs on small inputs
--
-- An object is a record, and a method returns the object as it leaves it. A subclass of `Frame` is
-- a constructor of `Body`. A byte string is a list of numbers, and an integer keeps its width at
-- the place where it is packed: a value that does not fit its field is an error, as in `struct`.
-- `receive_data` takes the number of rounds of its loop; more rounds than bytes are enough when
-- there is a size header. The fragmenter takes rounds for its two loops; more than the bytes of
-- metadata and data are enough. `allocate_stream` takes rounds as well; more than 2 ^ 30 are enough.
--
-- The application, whose objects are numbers, is an interface of actions on the whole state, so that
-- what other tasks do while it is awaited is part of its action. A time is a reading of a clock that
-- is an argument. The sender takes a number of turns, and the theorem says how many are enough.
--
-- The loop of the receiver runs over rounds, each with what `is_server_alive` says then; the rounds
-- end where the transport ends, or where the task is cancelled while it waits for the transport. The
-- turns of the sender are those in which its loop runs.
--
-- Not modelled: the starting of asyncio tasks, and their cancelling while the application or a
-- stream handler is awaited; what makes the sender's loop end; the timer that sends keep-alive
-- frames (rsocket/rsocket_client.py), the transports but TCP, the adapters to other reactive
-- libraries, the command line, the collection of a method's arguments from its signature, the texts
-- of exceptions, and `ExtendedFrame`, for which no class is registered.
pub mod Prelude
pub mod Bytes
pub mod FrameHelpers
pub mod Frame
pub mod FrameParser
pub mod FrameFragmenter
pub mod FrameFragmentCache
pub mod StreamControl
pub mod DatetimeHelpers
pub mod Lease
pub mod FrameBuilders
pub mod Extensions
pub mod RequestChannel
pub mod Handlers
pub mod Connection
pub mod Client
pub mod LoadBalancer
pub mod Collector
pub mod StreamFromGenerator
pub mod Transports
pub mod Routing
pub mod Tests
