-- ===== src/Command/Sending.antt =====
-- `xbee_cmd_send` of xbee_atcmd.c: the frame of a request, and what becomes of the request.
use xbeepocs.Base.{
  Bool, Bool-cases, List, Option, Ret, ap, arith, bit_and, einval, fail, if◌then◌else◌, inl, inr,
  length, length-append, length-take, none, not, refl, ret, set, some, sym, take, true, u16, zero,
  ℕ, ◌%◌, ◌++◌, ◌+◌, ◌/◌, ◌<◌, ◌==◌, ◌∙◌, ◌∷◌, ◌≡◌, ◌≤◌,
}
use xbeepocs.Serial.{Os, ser_get_cts}
use xbeepocs.Device.State.{Dev}
use xbeepocs.Device.{next_frame_id}
use xbeepocs.Device.Write.{frame_write}
use xbeepocs.Device.Send.{encode, Accepts, frame_write_lem}
use xbeepocs.Command.{
  Request, Table, max_param_length, flag_remote, local_at_cmd, local_header, get_request,
  handle_to_address, released,
}
use xbeepocs.Command.Handles.{IsTable}

abbrev pub local_at_cmd_q : ℕ
local_at_cmd_q = 0x09

abbrev pub remote_at_cmd : ℕ
remote_at_cmd = 0x17

abbrev pub flag_queue_change : ℕ
flag_queue_change = 0x0002

abbrev pub flag_reuse_handle : ℕ
flag_reuse_handle = 0x0004

abbrev pub has_flag : Request → ℕ → Bool
has_flag r flag = not (bit_and r.flags flag == 0)

-- The header of a local or a remote request.
unfoldable pub request_header : Request → List ℕ
request_header r =
    if has_flag r flag_remote
    then remote_at_cmd
      ∷ r.frame_id
      ∷ (r.ieee
          ++ (u16 r.network / 256
              ∷ u16 r.network % 256
              ∷ (if has_flag r flag_queue_change then 0 else 2)
              ∷ r.command))
    else local_header (if has_flag r flag_queue_change then local_at_cmd_q else local_at_cmd)
        r.frame_id r.command

-- The identifier of the next frame: 0 where nothing waits for the response.
unfoldable pub request_id : Request → Dev → ℕ × Dev
unfolding next_frame_id
request_id r d = elim r.callback [ none ↦ (0, d) | some callback ↦ next_frame_id d ]

-- A request whose frame was sent at `now` seconds.
unfoldable pub after_send : ℕ → Request → Request
after_send now r =
    if not (r.frame_id == 0)
    then record r { timeout = u16 (now + (if has_flag r flag_remote then 180 else 2)) }
    else if not (has_flag r flag_reuse_handle)
    then released r
    else r

module _ (sys : Os) (seconds : sys.World → ℕ) where
  open sys use {World}

  -- The part after the handle was found.
  unfoldable pub send_request : Table → ℕ → Request → Dev → World → Ret × Table × Dev × World
  unfolding frame_write after_send
  send_request t i r d w =
      let (error, w') =
        frame_write sys d (some (request_header r)) (some (take r.param_length r.param)) w in
      elim error [
        | ret zero ↦ (ret 0, set t i (after_send (seconds w') r), d, w')
        | other ↦ (other, set t i r, d, w')
      ]

  unfoldable pub cmd_send : Table → Ret → Dev → World → Ret × Table × Dev × World
  unfolding send_request request_id
  cmd_send t handle d w = elim (handle_to_address t handle) [
    | none ↦ (fail einval, t, d, w)
    | some i ↦
        let (id, d') = request_id (get_request t i) d in
        send_request t i (record (get_request t i) { frame_id = id }) d' w
  ]

length-request_header :
    (r : Request)
    → length r.command ≡ 2
    → length r.ieee ≡ 8
    → (0 < length (request_header r)) × (length (request_header r) ≤ 15)
unfolding request_header
length-request_header r two eight = elim (Bool-cases (has_flag r flag_remote)) [
  | inl far ↦
      let tail =
        u16 r.network / 256
        ∷ u16 r.network % 256
        ∷ (if has_flag r flag_queue_change then 0 else 2)
        ∷ r.command in
      let size = length-append r.ieee tail in
      rw far (omega (arith, size, two, eight), omega (arith, size, two, eight))
  | inr near ↦ rw near (omega (arith, two), omega (arith, two))
]

-- Taking an identifier changes neither the port nor the flags.
request_id-port :
    (r : Request) (d : Dev)
    → ((request_id r d).1.serport ≡ d.serport) × ((request_id r d).1.flags ≡ d.flags)
unfolding request_id
request_id-port r d = go r.callback refl
  where
    go :
        (callback : Option ℕ)
        → r.callback ≡ callback
        → ((request_id r d).1.serport ≡ d.serport) × ((request_id r d).1.flags ≡ d.flags)
    go none e = (ap (λ p. p.1.serport) (lone e), ap (λ p. p.1.flags) (lone e))
      where
        lone : r.callback ≡ none → request_id r d ≡ (0, d)
        lone f = rw (request_id, f)
    go (some callback) e = (ap (λ p. p.1.serport) (called e), ap (λ p. p.1.flags) (called e))
      where
        called : r.callback ≡ some callback → request_id r d ≡ next_frame_id d
        called f = rw (request_id, f)

-- The request as it is sent: with its identifier.
abbrev pub numbered : Request → Dev → Request
numbered r d = record r { frame_id = (request_id r d).0 }

module _ (sys : Os) (sent : sys.World → List ℕ) (port : Accepts sys sent)
    (seconds : sys.World → ℕ) where
  open sys use {World}

  -- On an invalid handle `xbee_cmd_send` is -EINVAL and does nothing. On a valid one of a request
  -- with two letters, an address of eight bytes and a full parameter buffer, over an open port
  -- that takes all bytes, with CTS asserted or flow control off, it returns 0 and sends one
  -- frame, the request's header and parameter. It changes that request alone: its identifier is
  -- the device's next, or 0 if it has no callback, and then it is released unless it is marked to
  -- be used again.
  pub cmd_send_lem :
      (t : Table) (k : ℕ) (d : Dev) (fd : ℕ) (w : World)
      → IsTable t
      → d.serport.fd ≡ some fd
      → (d.flags.use_flowcontrol ≡ true → (ser_get_cts sys d.serport w).0 ≡ ret 1)
      → (handle_to_address t (ret k) ≡ none
          → cmd_send sys seconds t (ret k) d w ≡ (fail einval, t, d, w))
        × ((i : ℕ)
            → handle_to_address t (ret k) ≡ some i
            → length (get_request t i).command ≡ 2
            → length (get_request t i).ieee ≡ 8
            → length (get_request t i).param ≡ max_param_length
            → (w' : World) × (cmd_send sys seconds t (ret k) d w ≡ (
              ret 0,
              set t i (after_send (seconds w') (numbered (get_request t i) d)),
              (request_id (get_request t i) d).1,
              w',
            ))
              × (sent w'
                  ≡ sent w
                    ++ encode (
                        request_header (numbered (get_request t i) d)
                        ++ take (get_request t i).param_length (get_request t i).param)))
  cmd_send_lem t k d fd w v e cts = (bad, good)
    where
      bad :
          handle_to_address t (ret k) ≡ none
          → cmd_send sys seconds t (ret k) d w ≡ (fail einval, t, d, w)
      bad f = unfold cmd_send in rw (cmd_send, f)

      ran :
          (i : ℕ)
          → handle_to_address t (ret k) ≡ some i
          → let r = numbered (get_request t i) d in
            let d' = (request_id (get_request t i) d).1 in
            let out =
              frame_write sys d' (some (request_header r)) (some (take r.param_length r.param)) w in
            out.0 ≡ ret 0
            → cmd_send sys seconds t (ret k) d w
              ≡ (ret 0, set t i (after_send (seconds out.1) r), d', out.1)
      ran i f ok = unfold cmd_send send_request in rw (cmd_send, f, send_request, ok)

      good :
          (i : ℕ)
          → handle_to_address t (ret k) ≡ some i
          → length (get_request t i).command ≡ 2
          → length (get_request t i).ieee ≡ 8
          → length (get_request t i).param ≡ max_param_length
          → (w' : World) × (cmd_send sys seconds t (ret k) d w ≡ (
            ret 0,
            set t i (after_send (seconds w') (numbered (get_request t i) d)),
            (request_id (get_request t i) d).1,
            w',
          ))
            × (sent w'
                ≡ sent w
                  ++ encode (
                      request_header (numbered (get_request t i) d)
                      ++ take (get_request t i).param_length (get_request t i).param))
      good i f two eight room =
          let r = numbered (get_request t i) d in
          let d' = (request_id (get_request t i) d).1 in
          let (same, flags) = request_id-port (get_request t i) d in
          let param = take r.param_length r.param in
          let (some_bytes, short) = length-request_header r two eight in
          let sizes = length-append (request_header r) param in
          let (ok, all) =
            frame_write_lem sys sent port d' fd (some (request_header r)) (some param) w
              (ap (λ s. s.fd) same ∙ e)
              (λ on.
                ap (λ s. (ser_get_cts sys s w).0) same
                ∙ cts (sym (ap (λ q. q.use_flowcontrol) flags) ∙ on))
              (omega (arith, some_bytes, sizes))
              (omega (arith, short, sizes, room, length-take r.param_length r.param)) in
          let w' = (frame_write sys d' (some (request_header r)) (some param) w).1 in
          (w', ran i f ok, all)
