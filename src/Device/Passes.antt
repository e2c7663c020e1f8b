-- ===== src/Device/Passes.antt =====
-- The single reads of `_xbee_frame_load`, on a port that holds given bytes.
use xbeepocs.Base.{
  List, [], ap, ap₂, arith, drop, drop-append, eagain, false, length, ltb, some, take, take-append,
  true, u16, ℕ, ◌*◌, ◌++◌, ◌+◌, ◌==◌, ◌||◌, ◌∙◌, ◌∷◌, ◌≡◌, ◌≢◌, ◌≤◌,
}
use xbeepocs.Serial.{done, errno, Os, Serial, got, ser_read}
use xbeepocs.Device.State.{wait_start, length_msb, length_lsb, rx_frame, Dev, max_rx_frame_len}
use xbeepocs.Device.{
  Calls, Pass, again, with_byte, on_start, on_msb, on_lsb, bytes_left, stored, on_frame, on_data,
  pass_in, pass,
}

-- A port with these bytes waiting: a read takes as many as it asks for and there are.
pub record Feeds (sys : Os) (feed : List ℕ → sys.World) : Type 0 where
  pub serves :
      (fd n b : ℕ) (bytes : List ℕ)
      → sys.sys_read fd n (feed (b ∷ bytes))
        ≡ (done (take n (b ∷ bytes)), feed (drop n (b ∷ bytes)))
  pub dry : (fd n : ℕ) → sys.sys_read fd n (feed []) ≡ (errno eagain, feed [])

module _ (sys : Os) (call : Calls sys) (feed : List ℕ → sys.World) (port : Feeds sys feed) where
  open sys use {World}

  reads :
      (s : Serial) (fd n b : ℕ) (bytes : List ℕ)
      → s.fd ≡ some fd
      → ser_read sys s n (feed (b ∷ bytes)) ≡ (got (take n (b ∷ bytes)), feed (drop n (b ∷ bytes)))
  unfolding ser_read
  reads s fd n b bytes e = rw (e, port.serves fd n b bytes)

  -- The byte that a 1-byte read takes, handed to the case of the `switch`.
  take_byte :
      (n : ℕ) (d : Dev) (fd b : ℕ) (bytes : List ℕ) (next : ℕ → Dev → World → ℕ → Pass sys call)
      → d.serport.fd ≡ some fd
      → with_byte sys call
          (ser_read sys d.serport 1 (feed (b ∷ bytes))).0
          n
          d
          (ser_read sys d.serport 1 (feed (b ∷ bytes))).1
          (next n d (ser_read sys d.serport 1 (feed (b ∷ bytes))).1)
        ≡ next n d (feed bytes) b
  take_byte n d fd b bytes next e =
      ap (λ p. with_byte sys call p.0 n d p.1 (next n d p.1)) (reads d.serport fd 1 b bytes e)

  module _ (fd : ℕ) where
    pub skip_byte :
        (n : ℕ) (d : Dev) (b : ℕ) (bytes : List ℕ)
        → d.serport.fd ≡ some fd
        → d.rx.state ≡ wait_start
        → b ≢ 0x7E
        → pass sys call n d (feed (b ∷ bytes)) ≡ again n d (feed bytes)
    unfolding pass pass_in on_start
    skip_byte n d b bytes e st ne =
        let test : (b == 0x7E) ≡ false = ground arith in
        ap (λ s. pass_in sys call s n d (feed (b ∷ bytes))) st
        ∙ take_byte n d fd b bytes (on_start sys call) e
        ∙ rw test

    pub at_start :
        (n : ℕ) (d : Dev) (bytes : List ℕ)
        → d.serport.fd ≡ some fd
        → d.rx.state ≡ wait_start
        → pass sys call n d (feed (0x7E ∷ bytes))
          ≡ again n (record d { rx = record (d.rx) { state = length_msb } }) (feed bytes)
    unfolding pass pass_in on_start
    at_start n d bytes e st =
        ap (λ s. pass_in sys call s n d (feed (0x7E ∷ bytes))) st
        ∙ take_byte n d fd 0x7E bytes (on_start sys call) e

    pub at_msb :
        (n : ℕ) (d : Dev) (b : ℕ) (bytes : List ℕ)
        → d.serport.fd ≡ some fd
        → d.rx.state ≡ length_msb
        → b ≢ 0x7E
        → pass sys call n d (feed (b ∷ bytes))
          ≡ again n
              (record d { rx = record (d.rx) { bytes_in_frame = b * 256; state = length_lsb } })
              (feed bytes)
    unfolding pass pass_in on_msb
    at_msb n d b bytes e st ne =
        let test : (b == 0x7E) ≡ false = ground arith in
        ap (λ s. pass_in sys call s n d (feed (b ∷ bytes))) st
        ∙ take_byte n d fd b bytes (on_msb sys call) e
        ∙ rw test

    pub at_lsb :
        (n : ℕ) (d : Dev) (b : ℕ) (bytes : List ℕ)
        → d.serport.fd ≡ some fd
        → d.rx.state ≡ length_lsb
        → 2 ≤ d.rx.bytes_in_frame + b
        → d.rx.bytes_in_frame + b ≤ max_rx_frame_len
        → pass sys call n d (feed (b ∷ bytes))
          ≡ again n
              (record d {
                rx = record (d.rx) {
                  bytes_in_frame = d.rx.bytes_in_frame + b;
                  state = rx_frame;
                  bytes_read = 0;
                };
              })
              (feed bytes)
    unfolding pass pass_in on_lsb
    at_lsb n d b bytes e st lo hi =
        let small : u16 (d.rx.bytes_in_frame + b) ≡ d.rx.bytes_in_frame + b = omega arith in
        let test : (ltb max_rx_frame_len (d.rx.bytes_in_frame + b)
              || ltb (d.rx.bytes_in_frame + b) 2)
            ≡ false =
          ground arith in
        ap (λ s. pass_in sys call s n d (feed (b ∷ bytes))) st
        ∙ take_byte n d fd b bytes (on_lsb sys call) e
        ∙ rw (small, test)

    -- A frame that is there in whole is read in whole.
    pub at_data :
        (n : ℕ) (d : Dev) (b : ℕ) (more bytes : List ℕ)
        → d.serport.fd ≡ some fd
        → d.rx.state ≡ rx_frame
        → bytes_left d.rx ≡ length (b ∷ more)
        → pass sys call n d (feed (b ∷ (more ++ bytes)))
          ≡ on_frame sys call n
              (record d {
                rx = record (d.rx) { frame_data = stored d.rx (b ∷ more); state = wait_start };
              })
              (feed bytes)
    unfolding pass pass_in
    at_data n d b more bytes e st left =
        ap (λ s. pass_in sys call s n d (feed (b ∷ (more ++ bytes)))) st
        ∙ ap (λ p. on_data sys call n d p.0 p.1)
            (reads d.serport fd (bytes_left d.rx) b (more ++ bytes) e)
        ∙ ap₂ (λ l m. on_data sys call n d (got l) (feed m))
            (ap (λ k. take k (b ∷ more ++ bytes)) left ∙ take-append (b ∷ more) bytes)
            (ap (λ k. drop k (b ∷ more ++ bytes)) left ∙ drop-append (b ∷ more) bytes)
        ∙ whole
      where
        whole :
            on_data sys call n d (got (b ∷ more)) (feed bytes)
            ≡ on_frame sys call n
                (record d {
                  rx = record (d.rx) { frame_data = stored d.rx (b ∷ more); state = wait_start };
                })
                (feed bytes)
        whole =
            let test : (length (b ∷ more) == bytes_left d.rx) ≡ true = ground (arith, left) in
            unfold on_data in rw test
