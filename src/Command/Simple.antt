-- ===== src/Command/Simple.antt =====
-- `xbee_cmd_simple` and `xbee_cmd_execute`: the frames that they send.
use xbeepocs.Base.{
  List, Option, [], ap, append-nil, arith, length, length-append, none, refl, ret, some, true, ℕ,
  ◌++◌, ◌<◌, ◌^◌, ◌∙◌, ◌≡◌,
}
use xbeepocs.Serial.{Os, ser_get_cts}
use xbeepocs.Device.State.{Dev}
use xbeepocs.Device.{next_frame_id}
use xbeepocs.Device.Write.{block}
use xbeepocs.Device.Send.{encode, Accepts, frame_write_lem}
use xbeepocs.Command.Encode.{length-encode_param}
use xbeepocs.Command.{encode_param, local_at_cmd, local_header, cmd_simple, cmd_execute}

module _ (sys : Os) (sent : sys.World → List ℕ) (port : Accepts sys sent) where
  open sys use {World}

  -- On an open port that takes all bytes written to it, with CTS asserted or flow control off,
  -- and for a command of two letters, `xbee_cmd_simple` returns 0 and sends one frame: a local AT
  -- command with frame identifier 0, the letters, and the encoded value.
  pub cmd_simple_lem :
      (d : Dev) (fd : ℕ) (command : List ℕ) (value : ℕ) (w : World)
      → d.serport.fd ≡ some fd
      → (d.flags.use_flowcontrol ≡ true → (ser_get_cts sys d.serport w).0 ≡ ret 1)
      → length command ≡ 2
      → ((cmd_simple sys d command value w).0 ≡ ret 0)
        × (sent (cmd_simple sys d command value w).1
            ≡ sent w ++ encode (local_header local_at_cmd 0 command ++ encode_param value))
  unfolding cmd_simple
  cmd_simple_lem d fd command value w e cts two =
      let content = local_header local_at_cmd 0 command ++ encode_param value in
      let size = length-append command (encode_param value) in
      let short = length-encode_param value in
      let (ok, all) =
        frame_write_lem sys sent port d fd (some content) none w e cts
          (omega (arith, length-append content []))
          (omega (arith, length-append content [], size, short, two)) in
      (ok, all ∙ ap (λ l. sent w ++ encode l) (append-nil content))

  -- On an open port that takes all bytes written to it, with CTS asserted or flow control off,
  -- for a command of two letters and a parameter of at most 255 bytes, `xbee_cmd_execute` returns
  -- 0 and sends one frame with the device's next frame identifier, and keeps that device.
  pub cmd_execute_lem :
      (d : Dev) (fd : ℕ) (command : List ℕ) (bytes : Option (List ℕ)) (w : World)
      → d.serport.fd ≡ some fd
      → (d.flags.use_flowcontrol ≡ true → (ser_get_cts sys d.serport w).0 ≡ ret 1)
      → length command ≡ 2
      → length (block bytes) < 2 ^ 8
      → ((cmd_execute sys d command bytes w).0 ≡ ret 0)
        × ((cmd_execute sys d command bytes w).1 ≡ (next_frame_id d).1)
        × (sent (cmd_execute sys d command bytes w).2
            ≡ sent w
              ++ encode (local_header local_at_cmd (next_frame_id d).0 command ++ block bytes))
  unfolding cmd_execute next_frame_id
  cmd_execute_lem d fd command bytes w e cts two short =
      let (id, d') = next_frame_id d in
      let content = local_header local_at_cmd id command in
      let (ok, all) =
        frame_write_lem sys sent port d' fd (some content) bytes w e cts
          (omega (arith, length-append content (block bytes)))
          (omega (arith, length-append content (block bytes), two, short)) in
      (ok, refl, all)
