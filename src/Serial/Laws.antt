-- ===== src/Serial/Laws.antt =====
-- What xbee_serial_posix.c guarantees to the driver above it.
use xbeepocs.Base.{
  List, Option, [], ap, arith, eagain, einval, fail, length, none, refl, some, subst, ℕ, ◌≡◌, ◌≤◌,
}
use xbeepocs.Serial.{
  Sys, done, errno, Os, Serial, got, failed, invalid, ser_read, ser_write, ser_tx_free, ser_get_cts,
  ser_close, read_result,
}

module _ (sys : Os) where
  open sys use {World, sys_read, read_bound}

  read_of :
      (fd n : ℕ) (w w1 w' : World) (r : Sys (List ℕ)) (bytes : List ℕ)
      → sys_read fd n w ≡ (r, w1)
      → read_result r ≡ got bytes
      → length bytes ≤ n
  read_of fd n w w1 w' (done b) bytes call e =
      let same : b ≡ bytes = cc in subst (λ l. length l ≤ n) same (read_bound fd n w w1 b call)
  read_of fd n w w1 w' (errno eagain) bytes call e =
      let same : [] ≡ bytes = cc in subst (λ l. length l ≤ n) same (omega arith)
  read_of fd n w w1 w' (errno _) bytes call e = cc

  from_fd :
      (fd : Option ℕ) (n : ℕ) (w w' : World) (bytes : List ℕ) (s : Serial)
      → s.fd ≡ fd
      → ser_read sys s n w ≡ (got bytes, w')
      → length bytes ≤ n
  unfolding ser_read
  from_fd none n w w' bytes s f e = cc (rw f at e)
  from_fd (some fd) n w w' bytes s f e =
      read_of fd n w (sys_read fd n w).1 w' (sys_read fd n w).0 bytes refl
        (ap (λ p. p.0) (rw f at e))

  -- `xbee_ser_read` never stores more bytes than the buffer that it was given holds.
  pub ser_read_bound :
      (s : Serial) (n : ℕ) (w w' : World) (bytes : List ℕ)
      → ser_read sys s n w ≡ (got bytes, w')
      → length bytes ≤ n
  ser_read_bound s n w w' bytes e = from_fd s.fd n w w' bytes s refl e

-- A port without a descriptor refuses to be used, and asks nothing of the kernel.
abbrev pub Refuses : (sys : Os) → Serial → Type 0
Refuses sys s =
    (w : sys.World)
    → ((buffer : List ℕ) → ser_write sys s buffer w ≡ (fail einval, w))
      × ((n : ℕ) → ser_read sys s n w ≡ (failed einval, w))
      × (ser_tx_free s ≡ fail einval)
      × (ser_get_cts sys s w ≡ (fail einval, w))
      × (ser_close sys s w ≡ (fail einval, s, w))

without_fd : (sys : Os) (s : Serial) → s.fd ≡ none → Refuses sys s
unfolding ser_write ser_read ser_tx_free invalid ser_get_cts ser_close
without_fd sys s e w = (λ buffer. rw e, λ n. rw e, rw e, rw e, rw e)

closed_fd : (sys : Os) (s : Serial) (w : sys.World) → (ser_close sys s w).1.fd ≡ none
unfolding ser_close
closed_fd sys s w = go s.fd refl
  where
    go : (fd : Option ℕ) → s.fd ≡ fd → (ser_close sys s w).1.fd ≡ none
    go none e = rw e
    go (some fd) e = rw e

-- After `xbee_ser_close`, whatever the kernel answered to `close`, the port refuses to write, to
-- read, to report free space or CTS and to be closed again, all with -EINVAL and without a system
-- call.
pub ser_close-Refuses : (sys : Os) (s : Serial) (w : sys.World) → Refuses sys (ser_close sys s w).1
ser_close-Refuses sys s w = without_fd sys (ser_close sys s w).1 (closed_fd sys s w)
