-- ===== src/Lib.antt =====
-- Verification of the JackBridge router, which carries audio between JACK and Core Audio on a Mac.
--
-- Two processes share one memory region. The daemon (daemon/JackBridge.cpp) is a JACK client: in each
-- period it copies the input ports into the downstream rings of the region and the upstream ring into
-- the output ports, counts a heartbeat up, and stamps the clock at each start of the ring. The driver
-- (driver/JackBridge/Plug-In) is a Core Audio HAL plug-in: it gives the DAW what the downstream rings
-- hold and puts what the DAW plays into the upstream ring, takes its zero time stamps from the
-- region, watches the heartbeat, and publishes where it reads under a seqlock, which the daemon's
-- health trace loads.
--
-- Files:
--   Common      Boolean tests on the native ℕ, machine words, signed integers, arrays of samples with
--               bounds, the interface of Float64 that the driver uses, and the option monad of faults.
--   Shm         shared/JackBridge.h: the registers and rings as the record Shm, their addresses,
--               create_shm, attach_shm, and check_protocol_version.
--   Ring        daemon/RingProjector.hpp and daemon/RingCopy.hpp.
--   Client      daemon/JackBridge.cpp: the class JackBridge as the record Daemon, its constructor, and
--               the workgroup part of process_callback.
--   Health      check_progress and xrun_callback of the same file.
--   Daemon      process_callback of the same file with all else that it calls, and on_shutdown.
--               Daemon/Prepared, Transport, Cycle, Untouched, Registers, Anchor, Idle, Membership and
--               Progress hold the proofs.
--   Objects     SA_ObjectMap of driver/JackBridge/Plug-In/SA_Object.cpp.
--   Device      SA_Device of driver/JackBridge/Plug-In/SA_Device.cpp: _HW_Open, StartIO and StopIO
--               (Device, Device/Running, Device/Opening), GetZeroTimeStamp (Device/Clock,
--               Device/Watchdog), BeginIOOperation (Device/Cycle), ReadInputData, WriteOutputData and
--               DoIOOperation (Device/Transfer).
--   Properties  the property operations of SA_Object and SA_Device, and PerformConfigChange.
--   PlugIn      driver/JackBridge/Plug-In/SA_PlugIn.cpp: the COM reference count (PlugIn), the properties
--               of the plug-in object (PlugIn/Object), the methods that an entry point calls
--               (PlugIn/Methods), SA_ObjectReleaser and the guards (PlugIn/Calls), the entry points
--               (PlugIn/Entry), and loading, the device list, Activate and Deactivate
--               (PlugIn/Lifecycle). PlugIn/Service puts the entry points together as one table of
--               requests; the other children hold proofs.
--   Wiring      daemon/jackClient.cpp, and of daemon/JackBridge.cpp check_jack_backend,
--               config_audio_ports, wire_direction and auto_wire (Wiring, Wiring/Graph), and the port
--               registration callback with the loop of main (Wiring/Wakeups).
--   Midi        the MIDI bridge of daemon/JackBridge.cpp.
--   Workgroup   daemon/workgroup.cpp: the search for the device and its workgroup (Workgroup), and the
--               thread's time constraint and the join (Workgroup/Joining).
--   Startup     main of daemon/JackBridge.cpp up to its loop.
--   Seqlock     the stores of BeginIOOperation and the loads of check_progress, step by step.
--   Bridge      daemon and driver together.
--   Tests       concrete data, and the theorems applied to them.
--
-- Correspondence: a definition has the name of its function or macro in snake case. A method takes
-- the object's record and the region's, and returns them as they are afterwards; a failing call
-- returns its error as a value. `none` from a copy or a callback is an access outside an array, a
-- division by zero, or a loop that does not come to its end. Words wrap where the source's do (u32,
-- u64); a sample is its bit pattern. What the program asks of its surroundings, such as the host
-- clock, JACK's buffers, Core Audio's times and the answers of system calls, is an input of the
-- definition that uses it. Float64 is a parameter; where a theorem needs a fact about it, the fact is
-- a named hypothesis (Properties/Changes.Exact).
--
-- The driver's state stands in two parts: the object map, and what lies behind it, which a method sees.
-- An entry point is a call in a monad that keeps both and ends with an answer, an error or a fault.
-- JACK's server is a record with the documented laws of jack_connect (Wiring/Graph.Jack).
--
-- Bounds: no loop of the program runs on fuel. The retry of check_progress is a recursion over the
-- values that its loads find, in order, and `none` if none is accepted; the callback's theorem has as
-- its hypothesis that one is, which holds whenever the HAL's thread leaves the reader undisturbed for
-- three loads. Wiring/Rest.settle takes a number of rounds, and the work that a state has left is
-- enough. `decimal` has room for ten digits.
--
-- Not modelled: the logs; the destructors and release_midi_ports, which only free; tools, a stress
-- test and shell scripts; and Apple's PublicUtility, whose mutex makes a call one step and whose
-- dispatch queue runs blocks in their order. Memory that cannot be allocated and exceptions of other
-- types than CAException do not occur. The seqlock's loads and stores happen one after another in
-- program order: weaker orders of the hardware are outside the model.
pub mod Common
pub mod Ring
pub mod Shm
pub mod Objects
pub mod Device
pub mod Seqlock
pub mod Client
pub mod Health
pub mod Daemon
pub mod Bridge
pub mod PlugIn
pub mod Properties
pub mod Tests
pub mod Wiring
pub mod Midi
pub mod Workgroup
pub mod Startup
