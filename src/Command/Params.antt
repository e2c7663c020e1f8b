-- ===== src/Command/Params.antt =====
-- `xbee_cmd_set_param` and `xbee_cmd_set_param_bytes`: the parameter of a request.
use xbeepocs.Base.{
  List, Ret, ap, arith, einval, emsgsize, fail, false, length, length-splice, ltb, none, refl, ret,
  slice-splice, some, take, true, ℕ, ◌<◌, ◌^◌, ◌∙◌, ◌≡◌, ◌≢◌, ◌≤◌,
}
use xbeepocs.Command.{
  Request, Table, max_param_length, get_request, handle_to_address, with_request, encode_param,
  set_param, set_param_bytes, with_param,
}
use xbeepocs.Command.Encode.{be_value, encode_param_lem, length-encode_param}
use xbeepocs.Command.Handles.{IsTable, inversion, with_valid, get_request-set, set-IsTable}

-- The bytes that a request sends after its letters.
abbrev pub sent_param : Request → List ℕ
sent_param r = take r.param_length r.param

with_invalid :
    (t : Table) (handle : Ret) (change : Request → Request)
    → handle_to_address t handle ≡ none
    → with_request t handle change ≡ (fail einval, t)
unfolding with_request
with_invalid t handle change e = rw (with_request, e)

-- What storing bytes as the parameter of entry `i` does.
abbrev pub Stores : Table → ℕ → List ℕ → Ret × Table → Type 0
Stores t i bytes p =
    (p.0 ≡ ret 0)
    × (sent_param (get_request p.1 i) ≡ bytes)
    × (length (get_request p.1 i).param ≡ length (get_request t i).param)
    × ((j : ℕ) → i ≢ j → get_request p.1 j ≡ get_request t j)
    × IsTable p.1

stores :
    (t : Table) (k i : ℕ) (bytes : List ℕ)
    → IsTable t
    → handle_to_address t (ret k) ≡ some i
    → length bytes ≤ length (get_request t i).param
    → Stores t i bytes (with_request t (ret k) (with_param bytes))
stores t k i bytes v e fits =
    let r = get_request t i in
    let new = with_param bytes r in
    let (bound, index, low) = inversion t k i e in
    let lt : i < length t = omega (arith, bound, index, v.size) in
    let (now, others) = get_request-set t i new lt in
    rw (with_valid t (ret k) i (with_param bytes) e) (
      refl,
      ap sent_param now ∙ slice-splice bytes r.param 0 0 (omega (arith, fits)),
      ap (λ q. length q.param) now ∙ length-splice bytes r.param 0,
      others,
      set-IsTable t i new v lt (v.sequences i),
    )

-- In a table of the right size, with byte sequence numbers, `xbee_cmd_set_param` of a 32-bit
-- value on a valid handle of an entry with a full buffer stores bytes that read back as the
-- value, in that entry and in no other; on an invalid handle it is -EINVAL and changes nothing.
pub set_param_lem :
    (t : Table) (k value : ℕ)
    → IsTable t
    → value < 2 ^ 32
    → (handle_to_address t (ret k) ≡ none → set_param t (ret k) value ≡ (fail einval, t))
      × ((i : ℕ)
          → handle_to_address t (ret k) ≡ some i
          → length (get_request t i).param ≡ max_param_length
          → Stores t i (encode_param value) (set_param t (ret k) value)
            × (be_value 0 (sent_param (get_request (set_param t (ret k) value).1 i)) ≡ value))
unfolding set_param
set_param_lem t k value v h = (
  λ bad. with_invalid t (ret k) (with_param (encode_param value)) bad,
  λ i e room.
      let all =
        stores t k i (encode_param value) v e (omega (arith, room, length-encode_param value)) in
      (all, ap (be_value 0) all.1 ∙ (encode_param_lem value h).0),
)

-- In a table of the right size, with byte sequence numbers, `xbee_cmd_set_param_bytes` refuses
-- more than 128 bytes with -EMSGSIZE, then an invalid handle with -EINVAL, and changes nothing;
-- else, for an entry with a full buffer, the bytes are what the request will send.
pub set_param_bytes_lem :
    (t : Table) (k : ℕ) (bytes : List ℕ)
    → IsTable t
    → (max_param_length < length bytes → set_param_bytes t (ret k) bytes ≡ (fail emsgsize, t))
      × (length bytes ≤ max_param_length
          → handle_to_address t (ret k) ≡ none
          → set_param_bytes t (ret k) bytes ≡ (fail einval, t))
      × ((i : ℕ)
          → length bytes ≤ max_param_length
          → handle_to_address t (ret k) ≡ some i
          → length (get_request t i).param ≡ max_param_length
          → Stores t i bytes (set_param_bytes t (ret k) bytes))
unfolding set_param_bytes
set_param_bytes_lem t k bytes v = (
  λ long. let test : ltb max_param_length (length bytes) ≡ true = ground arith in rw test,
  λ short bad.
      let test : ltb max_param_length (length bytes) ≡ false = ground arith in
      rw test (with_invalid t (ret k) (with_param bytes) bad),
  λ i short e room.
      let test : ltb max_param_length (length bytes) ≡ false = ground arith in
      rw test (stores t k i bytes v e (omega (arith, room))),
)
