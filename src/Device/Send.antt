-- ===== src/Device/Send.antt =====
-- What `xbee_frame_write` sends, and when it sends nothing.
use xbeepocs.Base.{
  Bool-cases, List, Option, Ret, [], ap, append-nil, append_assoc, ap₂, arith, ebusy, einval,
  enodata, fail, false, if◌then◌else◌, inl, inr, length, length-append, none, refl, ret, some, sym,
  true, u16, ℕ, ◌%◌, ◌++◌, ◌+◌, ◌/◌, ◌<◌, ◌^◌, ◌||◌, ◌∙◌, ◌∷◌, ◌≡◌,
}
use xbeepocs.Serial.{Os, Serial, invalid, ser_write, ser_get_cts, ser_tx_free, ser_tx_used, int_max}
use xbeepocs.Device.State.{Dev}
use xbeepocs.Device.{checksum}
use xbeepocs.Device.Checksum.{checksum-append}
use xbeepocs.Device.Write.{
  no_room, too_big, prefix, block, not_empty, read_cts, send_frame, write_with, frame_write,
}

-- An API frame on the wire: marker, length, content, checksum.
abbrev pub encode : List ℕ → List ℕ
encode content =
    0x7E ∷ length content / 256 ∷ length content % 256 ∷ (content ++ (checksum content 0xFF ∷ []))

-- A port that takes all that is written to it, in order; reading CTS sends nothing.
pub record Accepts (sys : Os) (sent : sys.World → List ℕ) : Type 0 where
  pub write_all :
      (fd : ℕ) (bytes : List ℕ) (w : sys.World)
      → sent (sys.sys_write fd bytes w).1 ≡ sent w ++ bytes
  pub cts_silent : (fd : ℕ) (w : sys.World) → sent (sys.sys_modem_cts fd w).1 ≡ sent w

open_port :
    (s : Serial) (fd : ℕ) → s.fd ≡ some fd → (invalid s ≡ false) × (ser_tx_free s ≡ ret int_max)
unfolding invalid ser_tx_free
open_port s fd e = (rw e, rw e)

has_content : (h p : List ℕ) → 0 < length (h ++ p) → (not_empty h || not_empty p) ≡ true
has_content [] [] lt = absurd (omega arith)
has_content [] (b ∷ p) lt = unfold not_empty in refl
has_content (b ∷ h) p lt = unfold not_empty in refl

no_content : (h p : List ℕ) → h ++ p ≡ [] → (not_empty h || not_empty p) ≡ false
no_content [] [] e = unfold not_empty in refl
no_content [] (b ∷ p) e = cc
no_content (b ∷ h) p e = cc

has_room :
    (header payload : List ℕ)
    → length (header ++ payload) < 2 ^ 16
    → (no_room (ret int_max) (length header + length payload + 3 + 1) ≡ false)
      × (too_big (ret int_max) (ret 0) (length header + length payload + 3 + 1) ≡ false)
has_room header payload fits = (
  unfold no_room in ground (arith, length-append header payload),
  unfold too_big in ground (arith, length-append header payload),
)

-- When `xbee_frame_write` refuses it sends nothing: -EINVAL for a port that is not open, -ENODATA
-- for a header and payload that are both empty, -EBUSY where CTS is read as deasserted.
pub frame_write_refuses :
    (sys : Os) (d : Dev) (header payload : Option (List ℕ)) (w : sys.World)
    → (d.serport.fd ≡ none → frame_write sys d header payload w ≡ (fail einval, w))
      × ((fd : ℕ)
          → d.serport.fd ≡ some fd
          → d.flags.use_flowcontrol ≡ false
          → block header ++ block payload ≡ []
          → frame_write sys d header payload w ≡ (fail enodata, w))
      × ((fd : ℕ)
          → d.serport.fd ≡ some fd
          → d.flags.use_flowcontrol ≡ true
          → (ser_get_cts sys d.serport w).0 ≡ ret 0
          → 0 < length (block header ++ block payload)
          → length (block header ++ block payload) < 2 ^ 16
          → frame_write sys d header payload w ≡ (fail ebusy, (ser_get_cts sys d.serport w).1))
unfolding frame_write
frame_write_refuses sys d header payload w = (closed, empty, busy)
  where
    -- What the code does once the value of CTS is known.
    given :
        (p : Ret × sys.World)
        → read_cts sys d w ≡ p
        → frame_write sys d header payload w
          ≡ write_with sys p.0 d (block header) (block payload) p.1
    given p e = ap (λ q. write_with sys q.0 d (block header) (block payload) q.1) e

    closed : d.serport.fd ≡ none → frame_write sys d header payload w ≡ (fail einval, w)
    closed e =
        let bad : invalid d.serport ≡ true = unfold invalid in rw e in
        let shut : read_cts sys d w ≡ (fail einval, w) = unfold read_cts in rw bad in
        given (fail einval, w) shut ∙ unfold write_with in refl

    empty :
        (fd : ℕ)
        → d.serport.fd ≡ some fd
        → d.flags.use_flowcontrol ≡ false
        → block header ++ block payload ≡ []
        → frame_write sys d header payload w ≡ (fail enodata, w)
    empty fd e off none_at_all =
        let (valid, free) = open_port d.serport fd e in
        let idle : read_cts sys d w ≡ (ret 1, w) = unfold read_cts in rw (valid, off) in
        given (ret 1, w) idle
        ∙ unfold write_with in rw (no_content (block header) (block payload) none_at_all)

    busy :
        (fd : ℕ)
        → d.serport.fd ≡ some fd
        → d.flags.use_flowcontrol ≡ true
        → (ser_get_cts sys d.serport w).0 ≡ ret 0
        → 0 < length (block header ++ block payload)
        → length (block header ++ block payload) < 2 ^ 16
        → frame_write sys d header payload w ≡ (fail ebusy, (ser_get_cts sys d.serport w).1)
    busy fd e on low some_bytes fits =
        let (valid, free) = open_port d.serport fd e in
        let used : ser_tx_used d.serport ≡ ret 0 = unfold ser_tx_used in rw e in
        let asks : read_cts sys d w ≡ (ret 0, (ser_get_cts sys d.serport w).1) =
          unfold read_cts in rw (valid, on) (ap (λ r. (r, (ser_get_cts sys d.serport w).1)) low) in
        given (ret 0, (ser_get_cts sys d.serport w).1) asks
        ∙ unfold write_with in
          rw (
            has_content (block header) (block payload) some_bytes,
            free,
            used,
            (has_room (block header) (block payload) fits).1,
          )

module _ (sys : Os) (sent : sys.World → List ℕ) (port : Accepts sys sent) where
  open sys use {World}

  sent_write :
      (s : Serial) (fd : ℕ) (bytes : List ℕ) (w : World)
      → s.fd ≡ some fd
      → sent (ser_write sys s bytes w).1 ≡ sent w ++ bytes
  unfolding ser_write
  sent_write s fd bytes w e = rw e (port.write_all fd bytes w)

  -- A block that is empty is not written, which sends the same.
  sent_block :
      (s : Serial) (fd : ℕ) (bytes : List ℕ) (w : World)
      → s.fd ≡ some fd
      → sent (if not_empty bytes then (ser_write sys s bytes w).1 else w) ≡ sent w ++ bytes
  unfolding not_empty
  sent_block s fd [] w e = sym (append-nil (sent w))
  sent_block s fd (b ∷ bytes) w e = sent_write s fd (b ∷ bytes) w e

  checksum_block :
      (bytes : List ℕ) (i : ℕ)
      → (if not_empty bytes then checksum bytes i else i) ≡ checksum bytes i
  unfolding not_empty checksum
  checksum_block [] i = refl
  checksum_block (b ∷ bytes) i = refl

  sent_frame :
      (s : Serial) (fd : ℕ) (header payload : List ℕ) (w : World)
      → s.fd ≡ some fd
      → length header + length payload < 2 ^ 16
      → sent (send_frame sys s header payload w) ≡ sent w ++ encode (header ++ payload)
  unfolding send_frame
  sent_frame s fd header payload w e fits =
      sent_write s fd _ w3 e ∙ ap₂ (λ l c. l ++ (c ∷ [])) all sum ∙ simp (append_assoc, head)
    where
      len : ℕ
      len = length header + length payload

      w1 : World
      w1 = (ser_write sys s (prefix len) w).1

      w2 : World
      w2 = if not_empty header then (ser_write sys s header w1).1 else w1

      w3 : World
      w3 = if not_empty payload then (ser_write sys s payload w2).1 else w2

      all : sent w3 ≡ ((sent w ++ prefix len) ++ header) ++ payload
      all =
          sent_block s fd payload w2 e
          ∙ ap (λ l. l ++ payload)
              (sent_block s fd header w1 e
                ∙ ap (λ l. l ++ header) (sent_write s fd (prefix len) w e))

      sum1 : ℕ
      sum1 = if not_empty header then checksum header 0xFF else 0xFF

      sum :
          (if not_empty payload then checksum payload sum1 else sum1)
          ≡ checksum (header ++ payload) 0xFF
      sum =
          checksum_block payload sum1
          ∙ ap (checksum payload) (checksum_block header 0xFF)
          ∙ sym (checksum-append header payload 0xFF)

      head :
          prefix len
          ≡ 0x7E ∷ length (header ++ payload) / 256 ∷ length (header ++ payload) % 256 ∷ []
      head =
          let plain : u16 len ≡ len = omega arith in
          let same : length (header ++ payload) ≡ len = length-append header payload in
          unfold prefix in rw (plain, same)

  asserted :
      (d : Dev) (fd : ℕ) (w : World)
      → d.serport.fd ≡ some fd
      → (d.flags.use_flowcontrol ≡ true → (ser_get_cts sys d.serport w).0 ≡ ret 1)
      → ((read_cts sys d w).0 ≡ ret 1) × (sent (read_cts sys d w).1 ≡ sent w)
  unfolding read_cts
  asserted d fd w e cts = elim (Bool-cases d.flags.use_flowcontrol) [
    | inl on ↦ rw ((open_port d.serport fd e).0, on) (cts on, silent)
    | inr off ↦ rw ((open_port d.serport fd e).0, off) (refl, refl)
  ]
    where
      silent : sent (ser_get_cts sys d.serport w).1 ≡ sent w
      silent = unfold ser_get_cts in rw e (port.cts_silent fd w)

  sends :
      (d : Dev) (fd : ℕ) (header payload : List ℕ) (w : World)
      → d.serport.fd ≡ some fd
      → 0 < length (header ++ payload)
      → length (header ++ payload) < 2 ^ 16
      → ((write_with sys (ret 1) d header payload w).0 ≡ ret 0)
        × (sent (write_with sys (ret 1) d header payload w).1
            ≡ sent w ++ encode (header ++ payload))
  unfolding write_with
  sends d fd header payload w e some_bytes fits =
      rw
        (
          has_content header payload some_bytes,
          (open_port d.serport fd e).1,
          (has_room header payload fits).0,
        )
        (
          refl,
          sent_frame d.serport fd header payload w e (omega (arith, length-append header payload)),
        )

  -- On an open port that takes all bytes written to it, with CTS asserted or flow control off,
  -- and a header and payload of fewer than 65536 bytes together and not both empty,
  -- `xbee_frame_write` returns 0 and sends exactly one frame: the marker, the big-endian length,
  -- the header, the payload and their checksum.
  pub frame_write_lem :
      (d : Dev) (fd : ℕ) (header payload : Option (List ℕ)) (w : World)
      → d.serport.fd ≡ some fd
      → (d.flags.use_flowcontrol ≡ true → (ser_get_cts sys d.serport w).0 ≡ ret 1)
      → 0 < length (block header ++ block payload)
      → length (block header ++ block payload) < 2 ^ 16
      → ((frame_write sys d header payload w).0 ≡ ret 0)
        × (sent (frame_write sys d header payload w).1
            ≡ sent w ++ encode (block header ++ block payload))
  unfolding frame_write
  frame_write_lem d fd header payload w e cts some_bytes fits =
      let (one, quiet) = asserted d fd w e cts in
      let (ok, all) =
        sends d fd (block header) (block payload) (read_cts sys d w).1 e some_bytes fits in
      rw (one, frame_write) (ok, all ∙ ap (λ l. l ++ encode (block header ++ block payload)) quiet)
