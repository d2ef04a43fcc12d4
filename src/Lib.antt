-- ===== src/Lib.antt =====
-- Verification library of the compression link project: a link of ns-3 that is meant to compress,
-- an application that detects whether a link on the way compresses, and the script that makes the
-- link's Python bindings.
--
-- Parts and files
--
-- - Common: numbers and tests, lists, strings, integers, decimal text, and `Checked`, a run that
--   ends or fails an assertion (NS_ASSERT, NS_FATAL_ERROR, or a null pointer followed).
-- - Bindings: ns-3.29/src/point-to-point/bindings/modulegen__gcc_LP64.py. Bindings/Syntax has the
--   calls on PyBindGen as data, Bindings/Types and Bindings/Methods list the calls of each
--   function of the script in order, and Bindings/Register runs them: a module object is passed
--   on, `root_module[key]` is a KeyError where the key is not registered. PyBindGen is the record
--   Bindings/Pybindgen. Bindings/Closed reads a script statically, Bindings/Run is about the whole
--   script, Bindings/Concrete about pure virtual methods, and Bindings/Callbacks about
--   callbacks_list.py. The flags of methods are `True` wherever they stand in the script. The file
--   modulegen__gcc_ILP32.py has the same text.
-- - Link: ns-3.29/src/point-to-point/model. Link/Ppp is ppp-header.cc with AddHeader,
--   ProcessHeader, PppToEther and EtherToPpp of the device; Link/Channel is
--   point-to-point-channel.cc; Link/Device is the device of point-to-point-net-device.cc: Send,
--   TransmitStart, TransmitComplete, Receive, GetRemote; Link/Device/Setup is its constructor and
--   Attach, with the calls of Attach that
--   ns-3.29/src/point-to-point/helper/point-to-point-helper.cc makes. What these call outside the
--   device is a log of effects. Packets, queues, byte order and the time of a transmission are the
--   record Link/Ns3, which states what the device relies on. Link/Device/Runs has runs of calls as
--   the simulator makes them. Link/Timed puts two devices, the channel and the scheduled events
--   together: one direction of a link in time, with the scheduler of ns-3 as a parameter of
--   Link/Ns3. Link/Remote is point-to-point-remote-channel.cc, and Link/Helper the whole of
--   Install with the choice of the channel. Link/Sample is a concrete network for the tests.
-- - Detection: Detection/Client is ns-3.29/src/applications/model/request-response-client.cc: the
--   payload, the packets, and (Detection/Client/Train) the train of packets between the start and
--   the stop of the application. Detection/Client/App is the application with its socket, event,
--   start, stop and the whole of Send, Detection/Client/App/Life its runs from the start to the
--   stop. Detection/Server is request-response-server.cc beside it; the sockets of ns-3 are the
--   record Detection/Sockets, with what the two rely on, and Detection/Sockets/Sample has concrete
--   ones for the tests. Detection/Detector is the verdict of
--   ns-3.29/examples/routing/cs621-dev01.cc on the flows that the flow monitor saw;
--   Detection/Config is its reading of config/config.txt, and Detection/Experiment its two clients
--   together with the verdict.
-- - Runner: run.py, which starts the experiment once for each capacity with and without
--   compression.
--
-- Bounds and fuel
-- `uint32_t` wraps at 2 ^ 32 (`u32`). The loop of SetFill runs on fuel; more rounds than the
-- buffer has bytes are enough where the pattern is not empty. A train runs on fuel for its calls
-- of Send; one per packet is enough, and one more for a life of the application, which ends with
-- its stop. The loop over RecvFrom has enough with one round more than there are packets waiting.
-- Times are natural numbers of nanoseconds.
--
-- Not modelled
-- The simulator and the rest of ns-3; the log lines, attributes and destructors of the
-- applications; random payloads of 2 ^ 31 bytes and more, whose size the source converts to a
-- negative `int`; that an application which starts twice without a stop has two events of Send
-- (ns-3 starts it once); what PyBindGen generates; the rest of the helpers; the MPI interface; the
-- command line of the experiment; the plot of run.py; zlib_experiment and examples, which hold
-- earlier versions.
mod Common
pub mod Bindings
pub mod Link
pub mod Detection
pub mod Runner
