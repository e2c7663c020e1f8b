-- ===== src/Baja.antt =====
-- testConfigureXbee/xbee_baja_init.c and xbee_baja_config.h: writing the settings of the team.
pub mod Settings
mod Tests
use xbeepocs.Base.{
  List, Option, Ret, [], ebusy, einval, fail, none, replicate, some, splice, suc, zero, ℕ, ◌∷◌,
}
use xbeepocs.Serial.{Os, Serial, sizeof_device}
use xbeepocs.Device.State.{Dev}
use xbeepocs.Command.{cmd_simple, cmd_execute}

-- `struct cmd`: two letters and a value.
pub record Cmd : Type 0 where
  pub name : List ℕ
  pub value : ℕ

-- HP, TX, BR, AP, ID, MT and NP
unfoldable pub xbee_baja_configs : List Cmd
xbee_baja_configs =
    record { name = 72 ∷ 80 ∷ []; value = 0 }
    ∷ record { name = 84 ∷ 88 ∷ []; value = 2 }
    ∷ record { name = 66 ∷ 82 ∷ []; value = 1 }
    ∷ record { name = 65 ∷ 80 ∷ []; value = 1 }
    ∷ record { name = 73 ∷ 68 ∷ []; value = 2015 }
    ∷ record { name = 77 ∷ 84 ∷ []; value = 0 }
    ∷ record { name = 78 ∷ 80 ∷ []; value = 100 }
    ∷ []

abbrev pub wr : List ℕ
wr = 87 ∷ 82 ∷ []

-- "/dev/ttyS0"
abbrev pub serial_device_id : List ℕ
serial_device_id = 47 ∷ 100 ∷ 101 ∷ 118 ∷ 47 ∷ 116 ∷ 116 ∷ 121 ∷ 83 ∷ 48 ∷ []

-- `_init_serial`: descriptor 0 is what the `memset` leaves.
abbrev pub init_serial : Serial
init_serial = record {
  baudrate = 921600;
  fd = some 0;
  device = splice (replicate sizeof_device 0) 0 serial_device_id;
}

-- EXIT_SUCCESS and EXIT_FAILURE
pub data Exit : Type 0 where
  success failure : Exit

module _ (sys : Os) where
  open sys use {World}

  -- The `do … while (err == -EBUSY)` on fuel; `none` is fuel that ran out.
  unfoldable pub set_config : ℕ → Dev → Cmd → World → Option (Ret × World)
  unfolding cmd_simple
  set_config zero d c w = none
  set_config (suc fuel) d c w =
      let (err, w') = cmd_simple sys d c.name c.value w in
      elim err [ fail ebusy ↦ set_config fuel d c w' | other ↦ some (other, w') ]

  -- The `for` over the settings, then "WR"; -EINVAL is the only error that ends it.
  unfoldable pub write_configs : ℕ → Dev → List Cmd → World → Option (Exit × Dev × World)
  unfolding set_config cmd_execute
  write_configs fuel d [] w =
      let (r, d', w') = cmd_execute sys d wr none w in some (success, d', w')
  write_configs fuel d (c ∷ cs) w = elim (set_config fuel d c w) [
    | none ↦ none
    | some (fail einval, w') ↦ some (failure, d, w')
    | some (other, w') ↦ write_configs fuel d cs w'
  ]

  unfoldable pub write_baja_settings : ℕ → Dev → World → Option (Exit × Dev × World)
  unfolding write_configs xbee_baja_configs
  write_baja_settings fuel d w = write_configs fuel d xbee_baja_configs w
