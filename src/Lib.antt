-- ===== src/Lib.antt =====
-- Verification of the Rust library of hidpin (rust/src), which reads and drives the pins of a board
-- over USB HID. The library has three layers. The protocol (rust/src/protocol.rs) turns reports into
-- bytes and back. A `Device` (rust/src/device.rs) reads and writes reports over a `Transport`
-- (rust/src/transport.rs). A watcher (rust/src/watch.rs) keeps one device connected, keeps its pin
-- configuration at a target and reports what happens as events. Simulated boards
-- (rust/src/testing.rs) implement the transport and behave as the firmware does.
--
-- The files and the code that they model:
--   Base, Base/*            lists, bits, bytes, text and maps that every part shares
--   Error, Error/Display    rust/src/error.rs: `Error`, `Result` and the text of an error
--   Protocol, Protocol/*    rust/src/protocol.rs: Layout has the constants and the reads of words,
--                           Flags the flag bytes, ResultCode, Pins the modes, settings, masks and
--                           configurations, Status, Info, Config and Output one report each with
--                           `encode`, `decode_*` and, in Config, `validate_pin_config*`
--   Transport               rust/src/transport.rs: `Transport` and `Bus` as the record `Host`
--   Device, Device/Monad    rust/src/device.rs: the state and the operations of `Device`
--   Device/RequestIds       `RequestIds`, `Device::next_request_id`
--   Device/Discovery        `choose_device`
--   Device/Ids              `usb_ids`, `env_id`, `find_devices`
--   Hidraw                  rust/src/hidraw.rs: `HidrawDevice` over the system calls
--   Hidraw/Ioctl            the request numbers
--   Hidraw/Descriptor       `top_level_usage`
--   Hidraw/Bus              `SystemBus` of rust/src/device.rs as a `Host`
--   Hidraw/Opening          `Device::open`, `open_path` and `open_on`
--   Hidraw/Sysfs            `uevent_field` and `enumerate_in` over a file system
--   Board, Board/Config, Board/Pins, Board/Handle
--                           rust/src/testing.rs: `FakeBoard` and `FakeHandle`
--   Board/World             `FakeBus` with one board, as a `Host`
--   Board/Bus               `FakeBus` with any number of boards, as a `Host`
--   Board/Access            what tests ask of a simulated board, and change on it
--   Watch/Events, /Clock    rust/src/watch.rs: events, `driven_outputs`, `DeviceClock`
--   Watch/Loop              the state of `WatchLoop`, and actions on it
--   Watch/Levels            `absorb`, `set_config`, `on_off`
--   Watch/Connect           `failed`, `lost`, `drop_connection`, `wrote`; below it Report has
--                           `received`, `status` and `snapshot`, Restore `config_changed` and
--                           `restore_target`, Retarget `set_target`, and Finding `try_connect` and
--                           `connect`
--   Watch/Runtime           what the thread and the application share, and where the thread is
--   Watch/Runtime/Thread    `main_loop` and `run`, from one stretch under the lock to the next
--   Watch/Runtime/Api       `watch`, and the methods of `Watcher`
--   Watch/Runtime/Steps     the thread and the application, one step after the other in any order
--   Watch/Runs, Watch/Runs/*
--                           rules for actions of `WatchLoop` that never panic, and what follows for
--                           each of its operations
--   Tests/*                 the theorems at concrete values
-- The other files hold proofs and are named for what they are about.
--
-- State is passed explicitly. An operation of a device takes a `Session`, the device with the world
-- behind its transport, and ends as done, raised with an error, or blocked in a call that never
-- returns. An action of the watcher takes the `WatchLoop` and goes on, stops with a fatal error,
-- waits for ever, or panics. The operating system, the clock and
-- the transport are the operations of the record `Host`, a parameter; the simulated board is an
-- instance of it. A lock of a simulated board is held for a whole call, so each call is one step; a
-- read with a timeout on an empty queue ends at once, with no other step in between.
--
-- Numbers are native naturals with the wrap-around written out. Bytes, GPIO numbers and words are
-- numbers; a theorem that needs their range says so. Instants are nanoseconds from the earliest
-- instant that the host expresses, without an upper bound. A `String` is its UTF-8 bytes.
-- `next_request_id` loops until it draws an id other than the last, so it takes a bound on its
-- rounds; one round is enough for the first id of a device. When the rounds run out the operation is
-- blocked, as the code is in a loop that goes on.
--
-- A watcher is its shared state, its thread and the answers that it sent. The thread runs from one
-- stretch under the lock to the next in one step, since nothing else reads what it changes between;
-- calls of the application come between any two steps. The channel of a reply is a number, the
-- ticket of the request. A wait on the condition variable may end at any time, as it may in the
-- code, and ends with every `notify_all`. A method that waits is a sequence of attempts.
--
-- The system calls, the environment and the file system that the search for devices uses are
-- parameters; the search sees one state of the file system. The loop of `top_level_usage` takes a
-- round for each byte, which is enough, as each round takes one at least.
--
-- The panics of the watcher that are in the model are those of an `expect`, and of a slice of what
-- was read. It is a law of `Host` that a read does not return more bytes than the buffer holds; the
-- simulated boards keep it, and the system does where `File::read` does. Not among the panics are
-- a sum of the clock and an interval beyond the last instant that the host expresses, and a look-up
-- in a configuration at GPIO 30 or more, which gives an unused setting in the model. The count of
-- missed reports is without the bound of its 64 bits.
--
-- Not modelled: the start of the thread by the operating system, which may fail; other platforms
-- than Linux; the firmware and the ports of the library to other languages.
pub mod Base
pub mod Error
pub mod Protocol
pub mod Transport
pub mod Device
pub mod Board
pub mod Watch
pub mod Hidraw
pub mod Tests
