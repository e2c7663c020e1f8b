-- ===== src/Discovery.antt =====
-- libraries/xbee_ansic_library/src/xbee/xbee_discovery.c: node identification messages. A pointer
-- into a frame is the list of the bytes from there to the end of the memory that the frame lies
-- in, which may be longer than the frame; `none` is an access outside of that memory.
pub mod Messages
pub mod Bounds
mod Tests
use xbeepocs.Base.{
  Errno, List, Option, Ret, [], bit_and, drop, ebadmsg, einval, enoent, enospc, fail, get_or,
  if◌then◌else◌, length, ltb, none, replicate, ret, slice, some, suc, zero, ℕ, ◌&&◌, ◌*◌, ◌++◌, ◌+◌,
  ◌-◌, ◌==◌, ◌^◌, ◌∷◌,
}

abbrev pub max_nodeid_len : ℕ
max_nodeid_len = 20

-- Places in `xbee_node_id1_t`, and the size of what is read of `xbee_node_id2_t`.
abbrev pub node_info_offset : ℕ
node_info_offset = 10

-- `xbee_node_id_t`; `node_info` is the whole array.
pub record NodeId : Type 0 where
  pub ieee_addr : List ℕ
  pub network_addr : ℕ
  pub parent_addr : ℕ
  pub device_type : ℕ
  pub node_info : List ℕ

abbrev pub be16 : List ℕ → ℕ → ℕ
be16 bytes i = get_or bytes i 0 * 2 ^ 8 + get_or bytes (i + 1) 0

unfoldable pub strlen : List ℕ → Option ℕ
strlen [] = none
strlen (zero ∷ bytes) = some 0
strlen (suc b ∷ bytes) = elim (strlen bytes) [ none ↦ none | some n ↦ some (suc n) ]

-- The name, followed by zeros.
abbrev pub padded_name : List ℕ → List ℕ
padded_name name = name ++ replicate (max_nodeid_len + 1 - length name) 0

-- A message that ends after the name: the first byte of the name is another thing. For an empty
-- name `--ni_len` is SIZE_MAX, the number of bytes that are copied.
unfoldable pub parse_short : List ℕ → ℕ → Option NodeId
parse_short source zero = none
parse_short source (suc n) = some (record {
  ieee_addr = slice source 2 8;
  network_addr = be16 source 0;
  parent_addr = 0xfffe;
  device_type = 1;
  node_info = padded_name (slice source (node_info_offset + 1) n);
})

-- A message with an `xbee_node_id2_t` after the name.
unfoldable pub parse_long : List ℕ → ℕ → Option NodeId
parse_long source n =
    if ltb (length source) (node_info_offset + n + 4)
    then none
    else some (record {
      ieee_addr = slice source 2 8;
      network_addr = be16 source 0;
      parent_addr = be16 source (node_info_offset + n + 1);
      device_type = get_or source (node_info_offset + n + 3) 0;
      node_info = padded_name (slice source node_info_offset n);
    })

-- What `xbee_disc_nd_parse` comes to: an error, or what it stores.
pub data Parsed : Type 0 where
  refused : Errno → Parsed
  stored : NodeId → Parsed

abbrev pub to_parsed : Option NodeId → Option Parsed
to_parsed o = elim o [ none ↦ none | some id ↦ some (stored id) ]

-- With a structure to store into. `size` is the length as the comparisons with `offsetof` see it:
-- converted to `size_t`, of 64 bits.
unfoldable pub nd_parse : Option (List ℕ) → ℕ → Option Parsed
unfolding strlen parse_short parse_long
nd_parse none size = some (refused einval)
nd_parse (some source) size =
    if ltb size node_info_offset
    then some (refused ebadmsg)
    else elim (strlen (drop node_info_offset source)) [
      | none ↦ none
      | some n ↦
          if ltb max_nodeid_len n
          then some (refused ebadmsg)
          else if node_info_offset + n + 1 == size
          then to_parsed (parse_short source n)
          else to_parsed (parse_long source n)
    ]

-- A length less the size of a header, as an `int` and then as a `size_t`.
unfoldable pub rest_size : ℕ → ℕ → ℕ
rest_size length header = if ltb length header then length + 2 ^ 64 - header else length - header

-- `xbee->node_id_handler`, for a device or none.
abbrev pub Handler : Type 0
Handler = Option ℕ

unfoldable pub add_node_id_handler : Option Handler → Option ℕ → Ret × Option Handler
add_node_id_handler none fn = (fail einval, none)
add_node_id_handler (some held) none = (fail einval, some held)
add_node_id_handler (some none) (some fn) = (ret 0, some (some fn))
add_node_id_handler (some (some h)) (some fn) = (fail enospc, some (some h))

unfoldable pub remove_node_id_handler : Option Handler → Option ℕ → Ret × Option Handler
remove_node_id_handler none fn = (fail einval, none)
remove_node_id_handler (some held) none = (fail einval, some held)
remove_node_id_handler (some none) (some fn) = (fail enoent, some none)
remove_node_id_handler (some (some h)) (some fn) =
    if h == fn then (ret 0, some none) else (fail enoent, some (some h))

-- Handlers take the message, or none when the discovery has ended.
module _ {World : Type 0} (call : ℕ → Option NodeId → World → World) where
  abbrev pub pass_on : Option Handler → Option NodeId → World → World
  pass_on none id w = w
  pass_on (some none) id w = w
  pass_on (some (some h)) id w = call h id w

  abbrev pub after_parse : Option Handler → World → Option Parsed → Option (Ret × World)
  after_parse handler w none = none
  after_parse handler w (some (refused e)) = some (fail e, w)
  after_parse handler w (some (stored id)) = some (ret 0, pass_on handler (some id) w)

  unfoldable pub parse_and_pass :
      Option Handler → Option (List ℕ) → ℕ → World → Option (Ret × World)
  unfolding nd_parse
  parse_and_pass handler node_data size w = after_parse handler w (nd_parse node_data size)

  -- The envelope's payload and its length, if there is an envelope.
  unfoldable pub nodeid_cluster_handler :
      Option Handler → Option (Option (List ℕ) × ℕ) → World → Option (Ret × World)
  unfolding parse_and_pass
  nodeid_cluster_handler handler none w = some (fail einval, w)
  nodeid_cluster_handler handler (some (payload, length)) w =
      parse_and_pass handler payload length w

  unfoldable pub nodeid_frame_handler :
      Option Handler → Option (List ℕ) → ℕ → World → Option (Ret × World)
  unfolding parse_and_pass rest_size
  nodeid_frame_handler handler none length w = some (fail einval, w)
  nodeid_frame_handler handler (some frame) length w =
      parse_and_pass handler (some (drop 12 frame)) (rest_size length 12) w

  -- A response to ATND, or to another command.
  unfoldable pub atnd_response_handler :
      Option Handler → Option (List ℕ) → ℕ → World → Option (Ret × World)
  unfolding parse_and_pass rest_size
  atnd_response_handler handler none length w = some (fail einval, w)
  atnd_response_handler handler (some frame) length w =
      let status = bit_and (get_or frame 4 0) 0x0f in
      if get_or frame 2 0 == 78 && get_or frame 3 0 == 68
      then if status == 0
        then parse_and_pass handler (some (drop 5 frame)) (rest_size length 5) w
        else if status == 1
        then some (ret 0, pass_on handler none w)
        else some (ret 0, w)
      else some (ret 0, w)
