-- ===== src/Device/State.antt =====
-- libraries/xbee_ansic_library/include/xbee/device.h: the state of an XBee device.
use xbeepocs.Base.{Bool, List, false, replicate, ℕ, ◌+◌}
use xbeepocs.Serial.{Serial}

-- `enum xbee_dev_rx_state`
pub data RxState : Type 0 where
  wait_start length_msb length_lsb rx_frame : RxState

-- `struct rx`; `frame_data` has `max_rx_frame_len + 1` bytes.
pub record Rx : Type 0 where
  pub state : RxState
  pub bytes_in_frame : ℕ
  pub bytes_read : ℕ
  pub frame_data : List ℕ

-- XBEE_MAX_RX_FRAME_LEN, on a port with cellular modules enabled (XBEE_MAX_RFPAYLOAD is 1500).
abbrev pub max_rx_frame_len : ℕ
max_rx_frame_len = 1518

-- XBEE_DEV_MAX_DISPATCH_PER_TICK
abbrev pub max_dispatch_per_tick : ℕ
max_dispatch_per_tick = 5

-- The bits of `enum xbee_dev_flags` that the driver sets and tests.
pub record Flags : Type 0 where
  pub cmd_init : Bool
  pub query_begin : Bool
  pub query_done : Bool
  pub query_error : Bool
  pub query_refresh : Bool
  pub query_inprogress : Bool
  pub in_tick : Bool
  pub use_flowcontrol : Bool

-- `wpan_dev_t`: the address, the payload limit, and the bits of `flags`.
pub record Wpan : Type 0 where
  pub ieee : List ℕ
  pub network : ℕ
  pub payload : ℕ
  pub joined : Bool
  pub authenticated : Bool
  pub authentication_enabled : Bool

-- `xbee_dispatch_table_entry_t`. A handler is named by a number, which takes the place of the
-- function pointer and of `context`.
pub record Entry : Type 0 where
  pub frame_type : ℕ
  pub frame_id : ℕ
  pub handler : ℕ

-- `xbee_dev_t`, without the pins and the fields of AT mode.
pub record Dev : Type 0 where
  pub wpan : Wpan
  pub serport : Serial
  pub hardware_version : ℕ
  pub hardware_series : ℕ
  pub firmware_version : ℕ
  pub flags : Flags
  pub frame_id : ℕ
  pub handlers : List Entry
  pub rx : Rx

abbrev pub no_flags : Flags
no_flags = record {
  cmd_init = false;
  query_begin = false;
  query_done = false;
  query_error = false;
  query_refresh = false;
  query_inprogress = false;
  in_tick = false;
  use_flowcontrol = false;
}

-- What the `memset` of `xbee_dev_init` leaves, with the new handlers and port.
abbrev pub zeroed : Serial → List Entry → Dev
zeroed serport handlers = record {
  wpan = record {
    ieee = replicate 8 0;
    network = 0;
    payload = 0;
    joined = false;
    authenticated = false;
    authentication_enabled = false;
  };
  serport = serport;
  hardware_version = 0;
  hardware_series = 0;
  firmware_version = 0;
  flags = no_flags;
  frame_id = 0;
  handlers = handlers;
  rx = record {
    state = wait_start;
    bytes_in_frame = 0;
    bytes_read = 0;
    frame_data = replicate (max_rx_frame_len + 1) 0;
  };
}
