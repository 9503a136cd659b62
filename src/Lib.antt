-- ===== src/Lib.antt =====
-- FluidEDM is a FluidNC firmware for wire EDM machines. What it adds to FluidNC stands under
-- FluidNC/src/EDM and is what this library models: a process controller that reads the telemetry of a
-- pulse power supply, runs a gap servo once per tick, watches a dielectric (coolant) module, and starts
-- and stops the cutting power; the links to both devices over one CAN-FD bus, and simulators that can
-- stand in for them; the mode table; the wire feed with its tension controller, load cell and step
-- generators; the contour buffer, the sampler and the loop that turn the servo's velocity into motion;
-- the spindle front end, the telemetry objects and the commands of the console. Of FluidNC itself,
-- the flow control of G-code jobs, the realtime characters with the overrides, the JSON encoder, the
-- ring and the passes of the planner and the text helpers of FluidNC/src are modelled. Paths below are
-- relative to FluidNC/src/EDM.
--
-- How the parts interact: the CAN links decode frames into a snapshot and a queue (onFrame); the
-- controller's tick drains at most eight events from the queue, reads both snapshots, checks them, and
-- calls the servo; the servo's velocity is in the report that the motion reads; the feed cap and the
-- severity in the report reach the wire feed, which samples the load cell, runs the tension
-- controller once per tick and drives two step generators; the motion loop steps the sampler along the
-- contour at the servo's velocity and queues the segments with the planner; commands, and the spindle's
-- setState, call requestCut and requestStop; the report channel writes the report with the JSON encoder.
-- A job's O-words work on a stack of blocks and set its source back; a realtime character queues an
-- event, whose handler changes an override and re-plans.
--
--   Base (Int, Bits, Float, Fixed, Decimal)
--                                   shared names; machine integers; the operations of `float`; "%ld"
--   Wire (Frame, Endian)            Can/CanFrame.h, Psu/Endian.h
--   Psu (Messages, Codec)           Psu/Protocol.h, Psu/Protocol.cpp
--   Psu (Link, CanLink)             Psu/IPsuLink.h, Psu/PsuLink.h, Psu/PsuLink.cpp, Can/CanBus.h
--   Psu (SimLink)                   Psu/SimPsuLink.h, Psu/SimPsuLink.cpp
--   Diel (Messages, Codec, CanLink) Diel/DielProtocol.*, Diel/IDielLink.h, Diel/CanDielLink.*
--   Diel (SimLink)                  Diel/SimDielLink.h, Diel/SimDielLink.cpp
--   Servo (ModeTable, GapServo)     Servo/ModeTable.*, Servo/GapServo.*
--   Control (Report, State, Events, Stages, Tick)
--                                   Control/EdmController.*, Servo/EdmReport.h, Servo/FaultReason.h
--   Control (Power, Faults)         theorems on the controller and the cutting power
--   Feed (TensionController, Hx711, StepGen, WireFeed)
--                                   Feed/TensionController.*, Feed/Hx711*, Feed/StepGen.*, Feed/WireFeed.*
--   Motion (Pose4, ContourBuffer, PathSampler)
--                                   Motion/Pose4.h, Motion/ContourBuffer.*, Motion/PathSampler.*
--   Motion (EdmMotion, EdmCut)      Motion/EdmMotion.cpp
--   Commands                        EdmCommands.cpp
--   Spindle                         EdmSpindle.h, EdmSpindle.cpp
--   Report                          EdmReportChannel.cpp
--   Json                            ../JSONEncoder.h, ../JSONEncoder.cpp
--   Flow (Words, Step, Jobs)        ../Flowcontrol.cpp, ../Job.*
--   Flow (Chain, Repeat, Blocks, Sound, Defined, Jumps)
--                                   theorems on chains, loops, skipped blocks and undefined jumps
--   Realtime                        ../RealtimeCmd.*, ../Config.h, overrides of ../Protocol.cpp
--   Planner                         ../Planner.*, and what it tells ../Stepper.cpp
--   Text (Strings, Regexpr, Utf8)   ../string_util.cpp, ../Regexpr.cpp, ../UTF8.*
--   Text (PinOptions)               ../Pins/PinOptionsParser.*
--   Text (Tokenizer)                ../Configuration/Tokenizer.*; its Document is what a text means
--   Text (Passthrough, Uri)         ../ProcessSettings.cpp, ../RealtimeCmd.*
--   Tests                           runs on concrete inputs
--
-- State is a record per class, and a method that changes an object returns the new one. The two
-- abstract link classes are the records IPsuLink and IDielLink, which the controller takes as instance
-- arguments. IsPowerLink says what a link does to the cutting power; the CAN link fills it with the last
-- START_CUT or STOP_CUT frame on the bus, the simulator with its flag. The null pointer to the
-- dielectric link is none.
--
-- Numbers: unsigned fields are natural numbers whose wrap-around is written out, signed ones are
-- integers with their two's-complement patterns. Milliseconds are 32-bit; a difference wraps as in the
-- source, and a comparison with a deadline does not. `float` is any type with the operations of the
-- record Float, whose values are not modelled; a theorem that needs laws of its comparisons takes them
-- as IsFloat, which NaN obeys too. Base.Fixed fills both with whole millionths. The functions of <cmath>
-- that the motion calls are the record Cmath; `strtol` and `strtof` are parameters of the commands.
-- Texts are lists of bytes, and the C library is that of the C locale; tags and names that are only
-- compared are String. What `expression` returns for the condition of an O-word is an argument of the
-- word, as the values of its parameters change between two lines. `Percent` is a type of at least 8 bits.
--
-- Bounds and fuel: the drain of events has the source's budget of eight. The binary search of the
-- contour has the number of vertices as fuel, which each turn halves. The loops over comma-separated
-- options, over the options of a pin and over the lines of a configuration run on more fuel than the
-- text has characters, and each turn takes one at least; the passes of the planner have the size of its
-- ring as fuel, and each turn goes on by one block. The motion loop has no bound in the source: it runs
-- over a list of passes, each with what the loop reads in that pass, and says whether it has returned at
-- the end of the list. All other loops recurse on a list or a count.
--
-- Concurrency: the CAN links hold their lock for each operation, so what other tasks do is a sequence
-- of whole operations between the calls of the controller; a frame that arrives while a tick runs is
-- not modelled. The bus is the recording bus of Can/CanBus.h: a frame handed to it is on the wire.
-- memcmp compares the fields of two SetModeBounds structures; their padding bytes, which the source
-- leaves indeterminate, are taken to be equal.
--
-- Not modelled: the SPI driver of the CAN chip, FreeRTOS tasks and the lock itself (I/O and scheduling);
-- std::to_string and the formats of snprintf other than "%ld", which write the other numbers of the
-- telemetry; an indentation of a configuration of 128 spaces or more, since `_indent` is an int_fast8_t;
-- what lies behind the sixteen counts of the JSON encoder, which is any memory; the YAML items and the tasks of
-- EdmSpindle; the set-up of pins and of the hardware timers of the step generators, which the source
-- leaves open; the geometry of a planned line, which is an argument of the planner's model, and the
-- stepper; the G-code parser and its expressions; the handlers of holds, resets and doors; and the rest
-- of FluidNC.
pub mod Base
pub mod Wire
pub mod Psu
pub mod Diel
pub mod Servo
pub mod Control
pub mod Feed
pub mod Motion
pub mod Commands
pub mod Text
pub mod Planner
pub mod Flow
pub mod Realtime
pub mod Report
pub mod Json
pub mod Spindle
mod Tests
