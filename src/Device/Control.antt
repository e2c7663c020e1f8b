-- ===== src/Device/Control.antt =====
-- Frame identifiers, modem status, the dispatch table and the start state of xbee_device.c.
use xbeepocs.Base.{
  ==_iff, Bool-cases, List, [], ap, arith, false, if◌then◌else◌, inl, inr, length, length-replicate,
  refl, suc, true, u8, zero, ℕ, ◌%◌, ◌+◌, ◌<◌, ◌==◌, ◌||◌, ◌∙◌, ◌∷◌, ◌≡◌, ◌≢◌, ◌⊎◌,
}
use xbeepocs.Serial.{Os, Serial}
use xbeepocs.Device.State.{Wpan, Entry, Dev, wait_start, max_rx_frame_len}
use xbeepocs.Device.{Calls, next_frame_id, dev_modem_status, matches, frame_type_end, run_handlers}
use xbeepocs.Device.Receive.{IsValid}
use xbeepocs.Device.Write.{dev_init}

-- The identifiers of `n` frames, one after the other, newest first, and the device after them.
abbrev pub after_ids : ℕ → Dev → Dev
after_ids zero d = d
after_ids (suc n) d = (next_frame_id (after_ids n d)).1

step_id : (d : Dev) → d.frame_id < 256 → (next_frame_id d).0 ≡ d.frame_id % 255 + 1
unfolding next_frame_id
step_id d h = elim (Bool-cases (u8 (d.frame_id + 1) == 0)) [
  | inl e ↦ rw e (ground (arith, e))
  | inr e ↦ rw e (ground (arith, e))
]

stores_id : (d : Dev) → (next_frame_id d).1.frame_id ≡ (next_frame_id d).0
unfolding next_frame_id
stores_id d = refl

-- The frame identifiers run through 1 to 255 in a circle and are never 0: the next one, after `n`
-- others, is `(frame_id + n) % 255 + 1`, and it is what the device stores.
pub next_frame_id_lem :
    (n : ℕ) (d : Dev)
    → d.frame_id < 256
    → ((next_frame_id (after_ids n d)).0 ≡ (d.frame_id + n) % 255 + 1)
      × ((next_frame_id (after_ids n d)).1.frame_id ≡ (d.frame_id + n) % 255 + 1)
next_frame_id_lem zero d h = (omega (arith, step_id d h), omega (arith, step_id d h, stores_id d))
next_frame_id_lem (suc n) d h =
    let (ih, held) = next_frame_id_lem n d h in
    let now = step_id (after_ids (suc n) d) (omega (arith, held)) in
    (omega (arith, now, held), omega (arith, now, held, stores_id (after_ids (suc n) d)))

-- Two of any 255 frames in a row never have the same identifier.
pub next_frame_id-distinct :
    (m n : ℕ) (d : Dev)
    → d.frame_id < 256
    → m < n
    → n < m + 255
    → (next_frame_id (after_ids m d)).0 ≢ (next_frame_id (after_ids n d)).0
next_frame_id-distinct m n d h lt near same =
    let a = (next_frame_id_lem m d h).0 in
    let b = (next_frame_id_lem n d h).0 in absurd (omega (arith, a, b, same))

-- An authenticated device has joined a network.
abbrev pub IsConsistent : Wpan → Type 0
IsConsistent w = w.authenticated ≡ true → w.joined ≡ true

-- No modem status leaves the device authenticated but not joined; after a status of 0, 1 or 3 it is
-- neither, with no network.
pub dev_modem_status-IsConsistent :
    (w : Wpan) (status : ℕ)
    → IsConsistent w
    → IsConsistent (dev_modem_status w status)
      × (status < 0x04
          → status ≢ 0x02
          → ((dev_modem_status w status).joined ≡ false)
            × ((dev_modem_status w status).network ≡ 0xFFFE))
unfolding dev_modem_status
dev_modem_status-IsConsistent w status c = (keeps, leaves)
  where
    keeps : IsConsistent (dev_modem_status w status)
    keeps = elim (Bool-cases (status == 0x06)) [
      | inl a ↦ rw a (λ on. refl)
      | inr a ↦ elim (Bool-cases (status == 0x10)) [
        | inl b ↦ rw (a, b) (λ on. refl)
        | inr b ↦ elim (Bool-cases (status == 0x02)) [
          | inl e ↦ rw (a, b, e) (λ on. refl)
          | inr e ↦ elim (Bool-cases (status == 0x00 || status == 0x01 || status == 0x03)) [
            | inl f ↦ rw (a, b, e, f) (λ on. on)
            | inr f ↦ rw (a, b, e, f) c
          ]
        ]
      ]
    ]

    leaves :
        status < 0x04
        → status ≢ 0x02
        → ((dev_modem_status w status).joined ≡ false)
          × ((dev_modem_status w status).network ≡ 0xFFFE)
    leaves lt ne =
        let a : (status == 0x06) ≡ false = ground arith in
        let b : (status == 0x10) ≡ false = ground arith in
        let e : (status == 0x02) ≡ false = ground arith in
        let f : (status == 0x00 || status == 0x01 || status == 0x03) ≡ true = ground arith in
        rw (a, b, e, f) (refl, refl)

-- The entries whose handlers a frame is given to: those that match it, up to the end marker.
abbrev pub chosen : List Entry → ℕ → ℕ → List Entry
chosen [] ft id = []
chosen (e ∷ es) ft id =
    if e.frame_type == frame_type_end
    then []
    else if matches e ft id
    then e ∷ chosen es ft id
    else chosen es ft id

-- An entry for the frame's type and identifier, or for any type, or any identifier.
abbrev pub IsFor : ℕ → ℕ → Entry → Type 0
IsFor ft id e = ((e.frame_type ≡ 0) ⊎ (e.frame_type ≡ ft)) × ((e.frame_id ≡ 0) ⊎ (e.frame_id ≡ id))

-- Some entries of a table are those for a frame, in order, up to the entry of type 0xFF.
pub data ArePicked (ft id : ℕ) : List Entry → List Entry → Type 0 where
  table_over : ArePicked ft id [] []
  marked_end : {e : Entry} {es : List Entry} → e.frame_type ≡ 0xFF → ArePicked ft id (e ∷ es) []
  picked :
      {e : Entry} {es picks : List Entry}
      → e.frame_type ≢ 0xFF
      → IsFor ft id e
      → ArePicked ft id es picks
      → ArePicked ft id (e ∷ es) (e ∷ picks)
  passed_over :
      {e : Entry} {es picks : List Entry}
      → e.frame_type ≢ 0xFF
      → ¬ IsFor ft id e
      → ArePicked ft id es picks
      → ArePicked ft id (e ∷ es) picks

matches-IsFor : (ft id : ℕ) (e : Entry) → matches e ft id ≡ true → IsFor ft id e
unfolding matches
matches-IsFor ft id e h = ground (arith, h)

matches-IsFor_not : (ft id : ℕ) (e : Entry) → matches e ft id ≡ false → ¬ IsFor ft id e
unfolding matches
matches-IsFor_not ft id e h for = ground (arith, h, for)

chosen-ArePicked : (es : List Entry) (ft id : ℕ) → ArePicked ft id es (chosen es ft id)
chosen-ArePicked [] ft id = table_over
chosen-ArePicked (e ∷ es) ft id = elim (Bool-cases (e.frame_type == frame_type_end)) [
  | inl end ↦ rw end (marked_end ((==_iff e.frame_type 0xFF).0 end))
  | inr more ↦
      let ne : e.frame_type ≢ 0xFF = ground (arith, more) in
      elim (Bool-cases (matches e ft id)) [
        | inl hit ↦
            rw (more, hit) (picked ne (matches-IsFor ft id e hit) (chosen-ArePicked es ft id))
        | inr miss ↦
            rw (more, miss)
              (passed_over ne (matches-IsFor_not ft id e miss) (chosen-ArePicked es ft id))
      ]
]

module _ (sys : Os) (call : Calls sys) where
  open sys use {World}

  -- Handlers called one after the other, each with the device and world the last one left.
  abbrev pub call_all : List Entry → List ℕ → Dev × World → Dev × World
  call_all [] frame s = s
  call_all (e ∷ es) frame s = call_all es frame (call e.handler frame s.0 s.1)

  run_handlers-chosen :
      (es : List Entry) (frame : List ℕ) (ft id : ℕ) (d : Dev) (w : World)
      → run_handlers sys call es frame ft id d w ≡ (
        length (chosen es ft id),
        (call_all (chosen es ft id) frame (d, w)).0,
        (call_all (chosen es ft id) frame (d, w)).1,
      )
  unfolding run_handlers
  run_handlers-chosen [] frame ft id d w = refl
  run_handlers-chosen (e ∷ es) frame ft id d w =
      elim (Bool-cases (e.frame_type == frame_type_end)) [
        | inl end ↦ rw end
        | inr more ↦ elim (Bool-cases (matches e ft id)) [
          | inl hit ↦
              rw (more, hit)
                (ap (λ r. (r.0 + 1, r.1, r.2))
                    (run_handlers-chosen es frame ft id (call e.handler frame d w).0
                      (call e.handler frame d w).1)
                  ∙ ap
                      (λ k. (
                        k,
                        (call_all (chosen es ft id) frame (call e.handler frame d w)).0,
                        (call_all (chosen es ft id) frame (call e.handler frame d w)).1,
                      ))
                      (omega arith))
          | inr miss ↦ rw (more, miss) (run_handlers-chosen es frame ft id d w)
        ]
      ]

module _ (sys : Os) (call : Calls sys) where
  open sys use {World}

  -- A frame is given to the handlers of exactly those entries before the first of type 0xFF whose
  -- type is 0 or the frame's and whose identifier is 0 or the frame's, in the order of the table,
  -- each on the state the one before it left; the result is the number of these entries.
  pub run_handlers_lem :
      (es : List Entry) (frame : List ℕ) (ft id : ℕ) (d : Dev) (w : World)
      → (picks : List Entry) × ArePicked ft id es picks
        × (run_handlers sys call es frame ft id d w ≡ (
          length picks,
          (call_all sys call picks frame (d, w)).0,
          (call_all sys call picks frame (d, w)).1,
        ))
  run_handlers_lem es frame ft id d w =
      (chosen es ft id, chosen-ArePicked es ft id, run_handlers-chosen sys call es frame ft id d w)

-- Whatever the port answers, `xbee_dev_init` leaves a device that waits for a frame in an empty
-- buffer of the right size, that is not in a tick, and that has used no frame identifier.
pub dev_init-IsValid :
    (sys : Os) (port : Serial) (handlers : List Entry) (w : sys.World)
    → IsValid (dev_init sys port handlers w).1.rx
      × ((dev_init sys port handlers w).1.rx.state ≡ wait_start)
      × ((dev_init sys port handlers w).1.flags.in_tick ≡ false)
      × ((dev_init sys port handlers w).1.frame_id ≡ 0)
unfolding dev_init
dev_init-IsValid sys port handlers w = (
  record { room = length-replicate {A = ℕ} (max_rx_frame_len + 1) 0; within = λ e. cc },
  refl,
  refl,
  refl,
)
