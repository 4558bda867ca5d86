-- ===== src/Lib.antt =====
-- phntm_bridge connects a ROS 2 robot to web clients: it watches the ROS graph, talks to a server over
-- socket.io, and carries topics to and from its peers in WebRTC data channels and media tracks. This
-- library models the logic of src/*.cpp and include/phntm_bridge/*.hpp.
--
-- The parts and their files:
--   Text, Clock      src/lib.cpp: the helpers on texts, and convertToRtpTimestamp.
--   Led, Leds        src/status_leds.cpp: StatusLED; StatusLEDs, ConnLED and DataLED.
--   Reader           src/topic_reader_data.cpp: TopicReaderData, one ROS topic into data channels;
--                    Reader.Latest is the thread of sendLatestData.
--   Writer           src/topic_writer_data.cpp: TopicWriterData, messages of peers onto ROS topics.
--   Media            src/topic_reader_h264.cpp: the registry of TopicReaderH264; its NAL units
--                    (Media.Nal), its images on their way to the encoder (Media.Encoder), and its
--                    frames on their way to the tracks (Media.Frames).
--   Peer             src/wrtc_peer.cpp: WRTCPeer, with its requests (Peer), its channels and tracks
--                    (Peer.Channels), processSubscriptionsSync (Peer.Process), the steps of its runs
--                    and of the SDP exchange (Peer.Negotiation), and its TURN servers (Peer.Ice).
--   Introspection    src/introspection.cpp: nodes, topics, endpoints, services and the QoS check, and
--                    one call of runIntrospection (Introspection.Run); start and stop and the two
--                    ends of a run (Introspection.Control), the message definitions
--                    (Introspection.Idls), the containers (Introspection.Docker), the lookups
--                    (Introspection.Lookup) and the reports (Introspection.Reports).
--   Config           src/config.cpp: widgets, the lists that are added to defaults, and the
--                    configuration of one topic (Config.Topics), from the parameters of rclcpp, which
--                    are an argument (Config.Params).
--   Packages         src/extra_packages.cpp: installExtraPackages, and the commands that it runs
--                    (Packages.Commands).
--   Services         src/generic_services.cpp: socket messages into requests (Services.Request),
--                    responses into socket messages (Services.Response), and the calls with their
--                    caches (Services.Calls).
--   Socket           src/sio.cpp: the handlers of the messages of peers (Socket.Handlers) and of those
--                    that lead to other parts (Socket.Calls), and the connection to the server
--                    (Socket.Connection), with what it tells of the introspection
--                    (Socket.Announce).
--   Files            src/file_extractor.cpp: the chunks of files (Files), the threads of
--                    findAndUploadFile (Files.Request), and the cache of the cloud (Files.Cache).
--   Prelude          numbers, lists, byte strings and maps.
-- A peer's run calls the readers, writers and media readers; the socket's handlers change the requests
-- that a run reads, and the introspection the topics that it looks up.
--
-- A static map is a field of the state, an object behind a shared pointer has an address, and what is
-- outside (clocks, rclcpp, libgpiod, libdatachannel, the ROS graph) is an argument: a record of what it
-- answers. std::map is an association list in the order of its keys. A function and its method have
-- the same name, in snake case. Numbers are natural numbers; a counter of w bits is reduced modulo
-- 2 ^ w. Where the code follows a null pointer or reads past an end, the result is `none`, the
-- state is marked as faulted, or the outcome is a fault or a crash.
--
-- Fuel: `rsplit` takes one round more than the text is long, and each round takes a delimiter away;
-- `replace` has one round more than the text is long, each of which takes the search text away, and
-- gives `none` where they do not suffice. The collection of message definitions has fuel for one more
-- than the types that have a file, since each call within another adds one of them.
--
-- Not modelled: logging, apart from the lines of the TURN servers; the release of a GPIO line, after
-- which libgpiod throws; the callbacks of libdatachannel, and the message with the configuration of the
-- user interface; the parameters that loadConfig only reads;
-- the printing and the conversion of JSON in src/sio.cpp; git, the encoder and the main program, which
-- are mostly input and output; interleavings of the threads, except those of sendLatestData and, as
-- steps in any order, of media outputs, of the extractors of a file, of the runs of a peer and of the
-- introspection; and src/sioclient, which is a copy of another project's library. A report of the
-- introspection is a function of its state, apart from the run that it follows.
--
-- In Services, what the generated type support of a message, the loader, rcl and the codec of UTF-16
-- do is an argument (Support, Ros), and what they promise is a hypothesis (KeepsTypes, KeepsScalars,
-- KeepsArrays); a `double` and a `float` are bit patterns.
pub mod Prelude
pub mod Text
pub mod Clock
pub mod Led
pub mod Leds
pub mod Reader
pub mod Writer
pub mod Media
pub mod Peer
pub mod Introspection
pub mod Config
pub mod Packages
pub mod Files
pub mod Services
pub mod Socket
