-- ===== src/Lib.antt =====
-- The diagnostic server for Sofar HYD inverters: a hub of WebSocket clients reads sections of
-- Modbus registers through a broker, which owns the one connection to the gateway, and decodes
-- them by the register tables.
--
-- The parts, and where they stand here:
--   * internal/modbus: Modbus.Conn (ReadFull over a connection whose bytes arrive in chunks cut
--     anywhere), Modbus.Crc (CRC16, over the bit operations of Modbus.Xor), Modbus.Rtu and
--     Modbus.Tcp (the requests and the loops over responses), Modbus.Error (the errors, a
--     constructor for each fmt.Errorf, and their texts). Modbus.Rtu.Exchange and
--     Modbus.Tcp.Exchange put frames as a device sends them against the clients.
--   * internal/broker: Broker.Backoff (backoff.go), Broker.State (state.go, the commands, and what
--     the world answers), Broker.Execute (setState, ensureConnected, enforceInterReadDelay,
--     handleError, one exchange) and Broker.Run (executeRead, executeWrite, executeBatch,
--     executeReconfigure, executeDisconnect, execute, Run), with its proofs in children by what
--     they prove. Broker.Calls holds the public methods, which other goroutines call: the selects
--     of ReadRegisters and the others, and those of Run, as steps of one system.
--   * internal/register: Register.Probe (the types), Register.Batch (AnalyzeBatchPlan, which makes
--     the reads of a section), Register.Format (FormatValue, FormatRawValue and the decoders that
--     they call), Register.Fault and its children (FaultTable and DecodeFaults), Register.Battery
--     (battery.go), Register.Configuration, Register.System, Register.Units, Register.Generated,
--     Register.Enums and Register.ConfigEnums (the tables of the other files).
--   * internal/hub: Hub.Message (message.go), Hub.Section (section.go), Hub.SpanTracker (batch.go,
--     which says what spans of a plan to read whole, to read probe by probe, or to leave out).
--     Hub.State is the hub with its clients and sections (removeClient, sendToClient, the
--     broadcasts), Hub.Commands the handlers of commands and state events, Hub.Run the event loop
--     from NewHub to shutdown, and Hub.Sections the groups of the sections registered at its start.
--     Of hub_streaming.go, Hub.Streaming is readBatchSpans, Hub.Extraction the slice of a batch
--     response that is a probe's, and Hub.Reads the reads of the sections of each kind.
--   * cmd/server and web: Server (the flags, the environment, the checks and what main starts with
--     them, and what the status routes answer), with Server.Settings its proofs.
--   * tools/xlsx-discover: Tools.Comparison (comparison.go), the three maps of registers side by
--     side, with the probes of the code as currentProbeAddrs collects them.
--   * Prelude: the shared names, native lists and tests, and strings. The Examples of each part
--     apply its theorems to concrete values.
--
-- How the code is translated. Numbers are natural numbers; uint16 and uint32 arithmetic is cut by
-- u16, sub16 and the like where the source computes with these types, and a map with uint16 keys
-- is a function (in Tools.Comparison, a list of pairs). A struct is a record with the source's fields; a method that changes its receiver
-- returns the new one. A float scale is given in ten-thousandths. The delays of the backoff are
-- int64 of nanoseconds, kept as their 64 bits. Logging is left out.
--
-- The broker's goroutine runs one command at a time, so its state is passed from command to
-- command. All it meets (dials, what the peer sends, the context, the clock, room on the state
-- channel, an abort from another goroutine) is a World: functions of the trace of what the broker
-- has done so far, of which nothing is assumed but what a theorem's hypothesis says. The trace is
-- part of the model alone. Around it, Broker.Calls.Step is a relation: whichever goroutine goes on,
-- and whichever ready case its select takes, is a step.
--
-- The hub's goroutine handles one event at a time: Hub.Run.handle_event takes the hub from event to
-- event, and a send on a closed channel, which panics, has no result. Maps are functions, or lists
-- of their keys; a walk over a map goes in the list's order. The goroutine of a read of a section
-- is a function of a Reader, which answers what the broker and the read's context do from the trace
-- of the read; what it sends to the hub are events of the hub. A read takes the section as it is
-- when it starts: that it reads the section's fields later, while the hub may change them, is not
-- modelled. Contexts are numbers; a section keeps those that it has cancelled, which is part of the
-- model alone.
--
-- Bounds and fuel. ReadFull recurses on the chunks that arrive; a read past the last one fails, as
-- a deadline makes it fail. The loops of tcp.go that run until a deadline take the number of
-- responses that come before it, and end with the source's timeout. The reconnection loop has no
-- bound in the source: it takes a number of rounds and has no result where these are used up;
-- Broker.Run.Returns shows how many are enough. The retries are bounded by the source's constants.
--
-- sort.Slice is a parameter of AnalyzeBatchPlan and of compare, with its documented behaviour as the
-- laws of Prelude.Sorting.Sort, which insertion sort keeps to.
--
-- Not modelled: floats (how a scaled value is printed is a parameter), timestamps and the JSON form
-- of messages, the WebSocket pumps (hub/client.go), ClientCount and RunFunc, HTTP itself and the
-- logger, the browser's program, the table V138Registers and the printing of xlsx-discover, its
-- reading of the spreadsheet, and the tools that sweep a device.
mod Prelude
pub mod Broker
pub mod Hub
pub mod Modbus
pub mod Register
pub mod Server
pub mod Tools
