-- ===== src/Baja/Tests.antt =====
-- Writing the settings over the line of the driver's tests.
use xbeepocs.Base.{[], none, refl, some, ◌++◌, ◌∷◌, ◌≡◌}
use xbeepocs.Device.State.{Dev}
use xbeepocs.Device.{next_frame_id}
use xbeepocs.Device.Send.{encode}
use xbeepocs.Device.Tests.{Wire, wire, wire-Accepts, dev, idle}
use xbeepocs.Command.{local_at_cmd, local_header}
use xbeepocs.Baja.{Cmd, success, xbee_baja_configs, wr, write_baja_settings}
use xbeepocs.Baja.Settings.{config_frames, write_baja_settings_lem}

abbrev hop : Cmd
hop = record { name = 72 ∷ 80 ∷ []; value = 0 }

abbrev shut : Dev
shut = record dev { serport = record (dev.serport) { fd = none } }

write_baja_settings_lem_example :
    (w' : Wire) × (write_baja_settings wire 1 dev idle ≡ some (success, (next_frame_id dev).1, w'))
    × (w'.output
        ≡ []
          ++ (config_frames xbee_baja_configs
              ++ encode (local_header local_at_cmd (next_frame_id dev).0 wr)))
write_baja_settings_lem_example =
    write_baja_settings_lem wire (λ w. w.output) wire-Accepts (λ fd w. refl) 0 dev 3 idle refl
