-- ===== src/Cbuf.antt =====
-- libraries/xbee_ansic_library/src/xbee/xbee_cbuf.c: the circular byte buffer of the serial and
-- OTA layers. A function that updates `*cbuf` returns the new buffer beside its result.
pub mod Mask
pub mod Index
pub mod Contents
pub mod Put
pub mod Get
pub mod Refine
mod Tests
use xbeepocs.Base.{
  List, Option, [], bit_and, drop, get_or, if◌then◌else◌, leb, length, ltb, none, not, set, slice,
  some, splice, sub_u32, take, u32, u8, ℕ, ◌++◌, ◌+◌, ◌-◌, ◌==◌, ◌||◌,
}

-- `xbee_cbuf_t`. `bytes` is `data[]`, mask + 1 bytes long; `unsigned int` has 32 bits.
pub record Cbuf : Type 0 where
  pub head : ℕ
  pub tail : ℕ
  pub mask : ℕ
  pub bytes : List ℕ

-- The first `none` is the null pointer, the one that is returned is -EINVAL.
pub init : Option Cbuf → ℕ → Option Cbuf
init none datasize = none
init (some c) datasize =
    if ltb datasize 3 || not (bit_and datasize (u32 (datasize + 1)) == 0)
    then none
    else some (record c { mask = datasize; head = 0; tail = 0 })

-- The byte is stored before the test for a full buffer.
pub putch : Cbuf → ℕ → ℕ × Cbuf
putch c ch =
    let stored = set c.bytes c.tail (u8 ch) in
    let t = bit_and (u32 (c.tail + 1)) c.mask in
    if t == c.head
    then (0, record c { bytes = stored })
    else (1, record c { bytes = stored; tail = t })

-- `none` is the -1 of an empty buffer.
pub getch : Cbuf → Option ℕ × Cbuf
getch c =
    if c.head == c.tail
    then (none, c)
    else (some (get_or c.bytes c.head 0), record c { head = bit_and (u32 (c.head + 1)) c.mask })

pub used : Cbuf → ℕ
used c = bit_and (sub_u32 c.tail c.head) c.mask

pub free : Cbuf → ℕ
free c = bit_and (sub_u32 (sub_u32 c.head c.tail) 1) c.mask

pub flush : Cbuf → Cbuf
flush c = record c { head = c.tail }

-- The last `memcpy` of `xbee_cbuf_put`, and what follows it.
pub put_rest : Cbuf → List ℕ → ℕ → ℕ → ℕ × Cbuf
put_rest c buffer n copied = (
  u32 (copied + n),
  record c { bytes = splice c.bytes c.tail (take n buffer); tail = u32 (c.tail + n) },
)

-- The test of `length` against the free space.
abbrev pub clip : ℕ → ℕ → ℕ
clip length room = if ltb room length then room else length

-- The bytes from an index to the end of the array.
abbrev pub end_space : ℕ → ℕ → ℕ
end_space mask index = sub_u32 (u32 (mask + 1)) index

pub put : Cbuf → List ℕ → ℕ → ℕ × Cbuf
unfolding put_rest
put c buffer length =
    let n = clip length (free c) in
    let e = end_space c.mask c.tail in
    if leb e n
    then put_rest (record c { bytes = splice c.bytes c.tail (take e buffer); tail = 0 })
        (drop e buffer) (n - e) e
    else put_rest c buffer n 0

-- The last `memcpy` of `xbee_cbuf_get`, and what follows it; `out` is what the caller's buffer
-- holds so far.
pub get_rest : Cbuf → List ℕ → ℕ → ℕ → ℕ × List ℕ × Cbuf
get_rest c out n copied =
    (u32 (copied + n), out ++ slice c.bytes c.head n, record c { head = u32 (c.head + n) })

-- The result, the bytes that were copied out, and the buffer that is left.
pub get : Cbuf → ℕ → ℕ × List ℕ × Cbuf
unfolding get_rest
get c length =
    let n = clip length (used c) in
    let e = end_space c.mask c.head in
    if ltb e n
    then get_rest (record c { head = 0 }) (slice c.bytes c.head e) (n - e) e
    else get_rest c [] n 0
