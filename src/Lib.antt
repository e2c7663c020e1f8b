-- ===== src/Lib.antt =====
-- The XBee programs of the team and the driver that they are built on.
--
-- A program (testBidirectional/reciever.c, testConfigureXbee) holds one `xbee_dev_t` and calls
-- `xbee_dev_tick` in a loop. The tick reads the serial port, finds API frames in the bytes, and
-- calls the frame handlers of the program's own table; to send, the program or the AT command
-- layer calls `xbee_frame_write`. The driver is the repository's modified copy of the XBee ANSI C
-- library, in libraries/xbee_ansic_library (XB below), whose devices each have their own table.
--
-- Parts, and where the code is:
--   Base      lists, words of fixed width, bits, signed integers, errors: shared by all parts.
--   Cbuf      XB/src/xbee/xbee_cbuf.c. Children: Mask (`& mask`), Index (validity, sizes), Contents
--             (the queue of bytes that a buffer stands for), Put, Get, Refine (runs of operations).
--   Serial    XB/ports/posix/xbee_serial_posix.c over a record `Os` of system calls; Laws.
--   Device    XB/src/xbee/xbee_device.c. State has the structures of XB/include/xbee/device.h; Device
--             the receive state machine, dispatch and tick; Write the sending side and
--             `xbee_dev_init`. Proofs: Checksum, Receive (bounds of the buffer), Ends (termination),
--             Passes and Stream (what is sent is received), Send, Control (identifiers, status,
--             dispatch).
--   Command   XB/src/xbee/xbee_atcmd.c. Command has the request table, parameters, and the commands
--             that are sent without it (proofs: Encode, Simple, Handles, Params); Sending has
--             `xbee_cmd_send`; Responses the handler of response frames (Answers, Values); Tick
--             `xbee_cmd_tick` and the limits of time (Expiry, Timeouts); Lists the lists of commands
--             (Effects, Run, Turns, Complete); Query the query of the device, its end, its status and
--             the handler of modem status (Learned, QueryEffects, Queried, Stopped,
--             Full).
--   Baja      testConfigureXbee/xbee_baja_init.c: writing the settings; Settings.
--   Receiver  testBidirectional/reciever.c: the messages stored and those expected; Slots.
--   Address   XB/src/wpan/wpan_types.c and XB/src/util/hexstrtobyte.c: 64-bit addresses; Text.
--   Time      XB/src/xbee/xbee_time.c: seconds and calendar dates. Years, Months, RoundTrip, Normal;
--             Moments the fields that stand for the same moment, Ranges the bounds of an int.
--   Transmitter testBidirectional/transmitter.c: sending a line of a file; Frames.
--   Xmodem    XB/src/xbee/xbee_xmodem.c: sending a file by Xmodem. State has the structures, Xmodem
--             the ticks. Proofs: Packets and Assemble (blocks), Line and Transfer (a receiver), Session
--             (a whole file), Waits (termination), Stuck (answers, timeouts, short writes).
--   Aps       XB/src/wpan/wpan_aps.c: Aps has the conversations of endpoints (proofs: Register,
--             Deadlines, Expire); Dispatch the tables of endpoints and clusters, and the dispatch of
--             an envelope (Walk, Reference, Guards, Protect); Replies the envelopes that are sent; Tick
--             `wpan_tick` (Kept, AllExpired).
--   Discovery XB/src/xbee/xbee_discovery.c: node identification messages. Messages, Bounds.
--   Crc       XB/src/util/crc16buypass.c and xmodem_crc16.c: CRCs of 16 bits. Tables, Bytes, Equal.
--
-- A C function `xbee_x_f` is the definition `f` of part X: `xbee_cbuf_put` is `put` of Cbuf,
-- `_xbee_frame_load` is `frame_load` of Device. A structure is a record with the fields' names; an
-- `int` result is a `Ret`, a number or an error. What changes a structure returns the new one. The
-- kernel, the heap, the frame handlers and the callbacks are parameters, with a state (`World`) that
-- passes through every call; what the theorems ask of them stands in the records `Os`, `Drains`,
-- `Feeds`, `Accepts`, `Heap`, `IsSteady`, `Io` and `IsPassive`. The handlers of endpoints and clusters
-- are such parameters too, and `zcl_invalid_cluster`, which answers an envelope that was refused. So
-- are two calls that go round in a circle: the tick that `xbee_cmd_create` makes (`tick`), for which
-- Command.Full takes `cmd_tick` itself, and the query that the end of a query starts (`again`). The
-- head of the query's list, a static structure
-- that refers to a device, stands beside that device. Machine integers are natural numbers with their
-- wrap-around written out.
--
-- Fuel: `load_loop` takes one unit for each call of `xbee_ser_read`; the number of bytes waiting, plus
-- one, is enough, since a call that goes on has read a byte. `set_config` takes one unit for each try
-- of a setting, which ends when CTS is asserted. `year_loop` has 180 units, more than the years in a
-- 16-bit number of days, and `month_loop` the 12 months; `roll_back` and `roll_on` take a unit for
-- each month, which has 28 days or more. `drop_chars` and `flush_input` take one for each read, and
-- more than the input has is enough. The walks of endpoints take the length of the table, plus one. A
-- `none` of `load_loop`, of `set_config` or of a tick of Xmodem is fuel that ran out; a `none` of
-- Receiver is a write outside of memory, and one of `cmd_tick` or `find_conversation` the read of a
-- null pointer. A `none` of Discovery is an access outside of memory.
--
-- Not modelled: the start-up loops of the programs; the rest of transmitter.c and the other
-- transmitter programs; the circles of calls named above, closed; resetting the device; byte swaps
-- outside of the definitions that use them; the ZCL and ZDO layers; handlers that no program
-- registers; firmware update but for Xmodem; printing; vendored code; signed overflow in the time
-- functions, which Time.Normal excludes by the size of the fields.
pub mod Base
pub mod Cbuf
pub mod Serial
pub mod Device
pub mod Command
pub mod Baja
pub mod Receiver
pub mod Address
pub mod Time
pub mod Crc
pub mod Transmitter
pub mod Xmodem
pub mod Aps
pub mod Discovery
