-- ===== src/Command/Values.antt =====
-- The value of a response: what the module encodes is what the callback gets.
use xbeepocs.Base.{
  Bool-cases, List, [], ap, ap₂, arith, inl, inr, length, ltb, refl, some, take, take-append, u8, ℕ,
  ◌++◌, ◌+◌, ◌-◌, ◌<◌, ◌^◌, ◌∙◌, ◌∷◌, ◌≡◌, ◌⊎◌,
}
use xbeepocs.Command.{Request, encode_param}
use xbeepocs.Command.Encode.{be_value, encode_param_lem, length-encode_param}
use xbeepocs.Command.Responses.{
  Frame, local_at_response, local_frame, parse_frame, response_value, build_response,
}

-- Bytes in the number that `_xbee_cmd_encode_param` uses.
value_bytes :
    (bytes : List ℕ)
    → (length bytes ≡ 1) ⊎ ((length bytes ≡ 2) ⊎ (length bytes ≡ 4))
    → response_value bytes (length bytes) ≡ be_value 0 bytes
unfolding response_value
value_bytes [] h = ground (arith, h)
value_bytes (a ∷ []) h = omega arith
value_bytes (a ∷ b ∷ []) h = omega arith
value_bytes (a ∷ b ∷ c ∷ []) h = ground (arith, h)
value_bytes (a ∷ b ∷ c ∷ d ∷ []) h = omega arith
value_bytes (a ∷ b ∷ c ∷ d ∷ e ∷ rest) h = ground (arith, h)

param_sizes :
    (value : ℕ)
    → value < 2 ^ 32
    → (length (encode_param value) ≡ 1)
      ⊎ ((length (encode_param value) ≡ 2) ⊎ (length (encode_param value) ≡ 4))
param_sizes value small =
    let (back, one, two, four) = encode_param_lem value small in
    elim (Bool-cases (ltb value (2 ^ 8))) [
      | inl byte ↦ inl (one (ground (arith, byte)))
      | inr more ↦ elim (Bool-cases (ltb value (2 ^ 16))) [
        | inl word ↦ inr (inl (two (ground (arith, more)) (ground (arith, word))))
        | inr long ↦ inr (inr (four (ground (arith, long))))
      ]
    ]

-- A number below 2 ^ 32, sent as the value of a local AT response in the bytes that
-- `_xbee_cmd_encode_param` stores, whatever stands in memory behind the frame, is the value that
-- the callback of the request gets, with exactly these bytes.
pub build_response-encode_param :
    (id first second status value i : ℕ) (behind : List ℕ) (r : Request)
    → value < 2 ^ 32
    → let bytes = encode_param value in
      let raw = local_at_response ∷ id ∷ first ∷ second ∷ status ∷ (bytes ++ behind) in
      (f : Frame) × (parse_frame raw (5 + length bytes) ≡ some f)
      × (f.frame_id ≡ id)
      × (f.command ≡ first ∷ second ∷ [])
      × ((build_response f i r).flags ≡ status)
      × ((build_response f i r).value_bytes ≡ bytes)
      × ((build_response f i r).value ≡ value)
unfolding parse_frame build_response
build_response-encode_param id first second status value i behind r small =
    let bytes = encode_param value in
    let raw = local_at_response ∷ id ∷ first ∷ second ∷ status ∷ (bytes ++ behind) in
    let (back, one, two, four) = encode_param_lem value small in
    let size : u8 (5 + length bytes + 2 ^ 8 - 5) ≡ length bytes =
      omega (arith, length-encode_param value) in
    let whole = ap (λ n. take n (bytes ++ behind)) size ∙ take-append bytes behind in
    (
      local_frame raw (5 + length bytes),
      refl,
      refl,
      refl,
      refl,
      whole,
      ap₂ response_value whole size ∙ value_bytes bytes (param_sizes value small) ∙ back,
    )
