-- ===== src/Lib.antt =====
-- ChatUp, a desktop chat client in C++ with Qt: models of the parts of its libraries that keep state,
-- and the theorems that hold of them. Paths are from the repository's root.
--
-- The parts and how they interact. NetworkCoordinator queues the calls of the controllers and serves
-- them on a thread of its own; it hands them to ServerRPCWrapper, which writes them as RPC messages,
-- keeps each until its reply comes, and calls the handlers of the server's own calls. The controllers
-- (groups, users, messages, calls) put what comes back into models, which are IdentifyingModels: lists
-- with an index from ids to rows that views show. TaskQueue runs background tasks, ServerRPCWrapper's
-- among them. DataPipe is the pool of buffers between the writers and the readers of audio and video;
-- SinkConnector, Decoder and the encoders are readers of such pipes. RtcService, as the controller of calls tells it,
-- sends what is in the pipes of the local encoders to the other participants of a call, and writes what
-- comes from them to the pipes of decoders.
--
-- Which file models which part:
--   Base, Base/*                  numbers, lists, `int` and maps; Base.Map stands for std::unordered_map
--                                 and QHash and seals its representation
--   Core/Toolkit, Core/Values     what is used of Qt, as interfaces with documented laws
--   Core/TaskQueue                lib/core/taskqueue.h, taskqueue.cpp: schedule_at, schedule and
--                                 enqueue push a task, dequeue is one round of the loop of that name
--   Core/IdentifyingModel         lib/core/models/identifyingmodel.h: one function for each method;
--                                 setData is set_data (index and role), set_item (index and item) and
--                                 set_data_by_id
--   Core/Group, Core/Message,     lib/core/data.h, data.cpp, userhandle.cpp, models/groupmodel.cpp,
--   Core/Participate, Core/User   models/messagemodel.cpp, models/participatemodel.cpp: the data, read
--                                 and edit, the user handle
--   Core/UserModel                lib/core/models/usermodel.h: reset, insertHandler, data, and changed for
--                                 the rows that the connections report
--   Media/DataPipe                lib/media/datapipe.h: one function for each method; Media/DataPipe/
--                                 System has the threads around it as a step relation, where one thread
--                                 at a time writes to a pipe and each holder unmaps once; Loop is about
--                                 the loop of unmapWriting behind the mutex
--   Media/Formats, Media/Pixels   lib/media/media.h, media.cpp: toQtFormat and toAVFormat, toQtPixel and
--                                 toAVPixel
--   Media/SinkConnector           lib/media/media.cpp: the methods of Video::SinkConnector, and on_frame for
--                                 the callback that establish registers
--   Media/RtpPacketizer           lib/media/rtppacketizer.cpp: start, stop, write_packaged, and on_packet
--                                 for the listener that start registers
--   Media/Decoder                 lib/media/decoder.cpp: start, stop, and decode for the task that start's
--                                 listener begins
--   Media/Demuxer                 lib/media/decoder.cpp: the demuxers of H264 and Opus: the callback that
--                                 FFmpeg reads with, and on_raw for the listener that start registers
--   Media/VideoEncoder            lib/media/encoder.cpp: start and close of Video::AbstractEncoder, and
--                                 on_frame for the listener that start registers
--   Media/AudioEncoder            lib/media/encoder.cpp: the same of Audio::AbstractEncoder; rounds is the
--                                 loop that sends a frame to the codec in chunks
--   Media/Capture                 lib/media/camerainput.cpp, microphoneinput.cpp: open, close, and
--                                 camera_round and microphone_round for a round of threadFunc
--   Media/AudioOutput             lib/media/audiooutput.cpp: start, close, setVolume, and on_frame for the
--                                 listener that start registers
--   Media/Pipelines               lib/media/pipelines.cpp: the camera and the microphone; Media/Pipelines/
--                                 Opening has the threads of open as a step relation
--   Network/Json                  what is used of nlohmann::json, as an interface
--   Network/Rpc                   lib/network/rpc.h, rpc.cpp: to_json and from_json
--   Network/ServerRpcWrapper      lib/network/serverrpcwrapper.h, serverrpcwrapper.cpp: methods and the
--                                 callbacks of the transport, with what they do outside as effects
--   Network/NetworkCoordinator    lib/network/networkcoordinator.h, networkcoordinator.cpp: methods, and
--                                 thread_round for a round of threadFunc
--   Network/Api                   lib/network/api and lib/core/data.cpp: from_json and to_json in Data,
--                                 what each exec sends in Requests, what each handle and each continuation
--                                 of an exec reads in Handlers
--   Network/GroupController       lib/network/controllers/groupcontroller.cpp and api/group.cpp: the
--                                 handlers and continuations of the constructor, create and load, the
--                                 readings with their timer, and the setters
--   Network/MessageController     lib/network/controllers/messagecontroller.cpp: the handler of posted
--                                 messages, create, load and their continuations
--   Network/UserController        lib/network/controllers/usercontroller.cpp: the pool and the cache of
--                                 handles, get and its continuation, the update handler; find and
--                                 the handler of addUserToRoom in Search
--   Network/CallController        lib/network/controllers/callcontroller.cpp: handles and state here; the
--                                 participants and the handlers of the server's calls in Participants;
--                                 openVideo, openAudio, closeVideo, closeAudio and the sinks in Streams;
--                                 the mutexes that threads take, as a step relation, in Locks
--   Network/RtcService            lib/network/rtcservice.cpp: contexts and listeners here; frames that come
--                                 in and their decoders in Remote; openLocalVideo, openLocalAudio and the
--                                 packets that go out in Local; the ends of streams and connections in Ends
-- Core/Sample and Network/Sample are concrete values for the interfaces; the modules called Tests try
-- theorems at concrete states.
--
-- How state and calls correspond. A method is a function from the state to the state, with its result
-- and its effects beside it, and is one critical section of the object's mutex. What a library
-- answers, such as isConnected, or what it throws, is an argument. `none` stands for undefined
-- behaviour or for an exception that leaves the method; the comment at each definition says which.
--
-- Bounds. Sizes and rows are natural numbers and are not bounded by int; where the code converts
-- between int, size_t and qint32 (readings, message counts, the readings count of a buffer) the
-- wrap-around is written out, and theorems that need it say which bound they assume. The count behind
-- the ids of calls (generateID) is below 2^31 - 1, where the code is undefined. The loops of the
-- code are structural recursion, on a list or on a count, and need no fuel; reconnect recurs on the
-- reconnection count itself. The loop of Media/AudioEncoder over the chunks of a frame has fuel, one
-- more than the samples of the frame.
--
-- Not modelled: the application and its QML, windows, settings and tests; the lists of devices
-- and the set-up of codecs, whose state is mostly that of FFmpeg and Qt objects; and
-- the peer connections and tracks of libdatachannel, which Network/RtcService has as numbers.
pub mod Base
pub mod Core
pub mod Media
pub mod Network
