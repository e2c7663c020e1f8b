-- ===== src/Baja/Settings.antt =====
-- `_write_baja_settings`: what it sends, and how it waits and fails.
use xbeepocs.Base.{
  List, Ret, [], ap, append_assoc, arith, drop, einval, fail, length, length-append, none, refl,
  ret, some, suc, sym, true, ℕ, ◌++◌, ◌∙◌, ◌∷◌, ◌≡◌,
}
use xbeepocs.Serial.{Os, Serial, done, ser_get_cts}
use xbeepocs.Device.State.{Dev}
use xbeepocs.Device.{next_frame_id}
use xbeepocs.Device.Send.{encode, Accepts, frame_write_refuses}
use xbeepocs.Command.{encode_param, local_at_cmd, local_header, cmd_simple, cmd_execute}
use xbeepocs.Command.Encode.{length-encode_param}
use xbeepocs.Command.Simple.{cmd_simple_lem, cmd_execute_lem}
use xbeepocs.Baja.{
  Cmd, success, failure, xbee_baja_configs, wr, set_config, write_configs, write_baja_settings,
}

-- The frame of a setting, and those of several.
abbrev pub config_frame : Cmd → List ℕ
config_frame c = encode (local_header local_at_cmd 0 c.name ++ encode_param c.value)

abbrev pub config_frames : List Cmd → List ℕ
config_frames [] = []
config_frames (c ∷ cs) = config_frame c ++ config_frames cs

-- Every setting has a name of two letters.
abbrev Named : List Cmd → Type 0
Named [] = Unit
Named (c ∷ cs) = (length c.name ≡ 2) × Named cs

module _ (sys : Os) (sent : sys.World → List ℕ) (port : Accepts sys sent) where
  open sys use {World}

  module _ (asserted : (fd : ℕ) (w : World) → (sys.sys_modem_cts fd w).0 ≡ done true) where
    cts : (s : Serial) (fd : ℕ) (w : World) → s.fd ≡ some fd → (ser_get_cts sys s w).0 ≡ ret 1
    unfolding ser_get_cts
    cts s fd w e = rw (e, asserted fd w)

    set_config_lem :
        (fuel : ℕ) (d : Dev) (fd : ℕ) (c : Cmd) (w : World)
        → d.serport.fd ≡ some fd
        → length c.name ≡ 2
        → (w' : World) × (set_config sys (suc fuel) d c w ≡ some (ret 0, w'))
          × (sent w' ≡ sent w ++ config_frame c)
    unfolding set_config cmd_simple
    set_config_lem fuel d fd c w e two =
        let (ok, all) =
          cmd_simple_lem sys sent port d fd c.name c.value w e (λ on. cts d.serport fd w e) two in
        ((cmd_simple sys d c.name c.value w).1, rw (set_config, ok), all)

    write_configs_lem :
        (fuel : ℕ) (d : Dev) (fd : ℕ) (cs : List Cmd) (w : World)
        → d.serport.fd ≡ some fd
        → Named cs
        → (w' : World) × (write_configs sys (suc fuel) d cs w
            ≡ some (success, (next_frame_id d).1, w'))
          × (sent w'
              ≡ sent w
                ++ (config_frames cs ++ encode (local_header local_at_cmd (next_frame_id d).0 wr)))
    unfolding write_configs
    write_configs_lem fuel d fd [] w e named =
        let (ok, kept, all) =
          cmd_execute_lem sys sent port d fd wr none w e (λ on. cts d.serport fd w e) refl
            (omega arith) in
        let out = (cmd_execute sys d wr none w).2 in
        (out, ap (λ d'. some (success, d', out)) kept, all)
    write_configs_lem fuel d fd (c ∷ cs) w e (two, named) =
        let (w1, run, first) = set_config_lem fuel d fd c w e two in
        let (w2, rest, others) = write_configs_lem fuel d fd cs w1 e named in
        let last = encode (local_header local_at_cmd (next_frame_id d).0 wr) in
        (
          w2,
          rw (write_configs, run) rest,
          others
              ∙ ap (λ l. l ++ (config_frames cs ++ last)) first
              ∙ append_assoc (sent w) (config_frame c) (config_frames cs ++ last)
              ∙ ap (λ l. sent w ++ l) (sym (append_assoc (config_frame c) (config_frames cs) last)),
        )

    -- On an open port that takes all bytes and always asserts CTS, `_write_baja_settings` succeeds
    -- at the first try of each setting, whether or not flow control is on: it sends the seven
    -- settings, in the order of the table, each as one frame with the encoded value, and then WR
    -- with the device's next frame identifier. What the module would answer is no condition.
    pub write_baja_settings_lem :
        (fuel : ℕ) (d : Dev) (fd : ℕ) (w : World)
        → d.serport.fd ≡ some fd
        → (w' : World) × (write_baja_settings sys (suc fuel) d w
            ≡ some (success, (next_frame_id d).1, w'))
          × (sent w'
              ≡ sent w
                ++ (config_frames xbee_baja_configs
                    ++ encode (local_header local_at_cmd (next_frame_id d).0 wr)))
    unfolding write_baja_settings xbee_baja_configs
    write_baja_settings_lem fuel d fd w e =
        write_configs_lem fuel d fd xbee_baja_configs w e
          (refl, (refl, (refl, (refl, (refl, (refl, (refl, _)))))))

set_config-shut :
    (sys : Os) (fuel : ℕ) (d : Dev) (c : Cmd) (w : sys.World)
    → d.serport.fd ≡ none
    → set_config sys (suc fuel) d c w ≡ some (fail einval, w)
unfolding set_config cmd_simple
set_config-shut sys fuel d c w e =
    let tried =
      (frame_write_refuses sys d (some (local_header local_at_cmd 0 c.name ++ encode_param c.value))
          none w).0
        e in
    rw (set_config, tried) (ap (λ (p : Ret × sys.World). some (fail einval, p.1)) tried)

write_configs-shut :
    (sys : Os) (fuel : ℕ) (d : Dev) (c : Cmd) (cs : List Cmd) (w : sys.World)
    → d.serport.fd ≡ none
    → write_configs sys (suc fuel) d (c ∷ cs) w ≡ some (failure, d, w)
unfolding write_configs
write_configs-shut sys fuel d c cs w e = rw (write_configs, set_config-shut sys fuel d c w e)

-- For a setting of two letters, a try with flow control on and CTS read as deasserted sends
-- nothing and is made again; on a port that is not open `_write_baja_settings` fails at once and
-- leaves the device and the world as they are.
pub set_config_waits :
    (sys : Os) (fuel : ℕ) (d : Dev) (c : Cmd) (w : sys.World)
    → length c.name ≡ 2
    → (d.serport.fd ≡ none → write_baja_settings sys (suc fuel) d w ≡ some (failure, d, w))
      × ((fd : ℕ)
          → d.serport.fd ≡ some fd
          → d.flags.use_flowcontrol ≡ true
          → (ser_get_cts sys d.serport w).0 ≡ ret 0
          → set_config sys (suc fuel) d c w
            ≡ set_config sys fuel d c (ser_get_cts sys d.serport w).1)
unfolding set_config cmd_simple write_baja_settings xbee_baja_configs
set_config_waits sys fuel d c w two = (shut, busy)
  where
    content : List ℕ
    content = local_header local_at_cmd 0 c.name ++ encode_param c.value

    shut : d.serport.fd ≡ none → write_baja_settings sys (suc fuel) d w ≡ some (failure, d, w)
    shut e =
        write_configs-shut sys fuel d (record { name = 72 ∷ 80 ∷ []; value = 0 })
          (drop 1 xbee_baja_configs) w e

    busy :
        (fd : ℕ)
        → d.serport.fd ≡ some fd
        → d.flags.use_flowcontrol ≡ true
        → (ser_get_cts sys d.serport w).0 ≡ ret 0
        → set_config sys (suc fuel) d c w ≡ set_config sys fuel d c (ser_get_cts sys d.serport w).1
    busy fd e on low =
        let tried =
          (frame_write_refuses sys d (some content) none w).2 fd e on low
            (omega (arith, length-append content []))
            (omega (
              arith,
              length-append content [],
              length-append c.name (encode_param c.value),
              length-encode_param c.value,
              two,
            )) in
        rw (set_config, tried) (ap (λ (p : Ret × sys.World). set_config sys fuel d c p.1) tried)
