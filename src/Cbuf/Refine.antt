-- ===== src/Cbuf/Refine.antt =====
-- The circular buffer refines a bounded queue of bytes.
use xbeepocs.Base.{
  Bool-cases, List, Option, [], ap, append-nil, ap₂, arith, drop, get_or, if◌then◌else◌, inl, inr,
  length, ltb, ltb→lt, min, none, refl, some, subst, sym, take, u8, ℕ, ◌++◌, ◌+◌, ◌-◌, ◌<◌, ◌==◌,
  ◌∙◌, ◌∷◌, ◌≡◌,
}
use xbeepocs.Cbuf.{Cbuf, putch, getch, used, free, flush, put}
use xbeepocs.Cbuf.Index.{IsValid, used-add-free}
use xbeepocs.Cbuf.Contents.{contents, length-cyclic, cyclic}
use xbeepocs.Cbuf.Put.{putch_lem, put_lem}
use xbeepocs.Cbuf.Get.{getch_lem, flush-IsValid}

-- The calls of a program; `xbee_cbuf_put` gets a whole buffer.
pub data Op : Type 0 where
  put_byte : ℕ → Op
  get_byte flush_all : Op
  put_bytes : List ℕ → Op

-- What a call returns.
pub data Out : Type 0 where
  count : ℕ → Out
  byte : Option ℕ → Out
  nothing : Out

-- A call of the buffer.
unfoldable pub step : Op → Cbuf → Out × Cbuf
step (put_byte ch) c = (count (putch c ch).0, (putch c ch).1)
step get_byte c = (byte (getch c).0, (getch c).1)
step flush_all c = (nothing, flush c)
step (put_bytes bytes) c = (count (put c bytes (length bytes)).0, (put c bytes (length bytes)).1)

unfoldable pub run : List Op → Cbuf → List Out × Cbuf
unfolding step
run [] c = ([], c)
run (op ∷ ops) c = let (out, c') = step op c in let (outs, last) = run ops c' in (out ∷ outs, last)

-- The queue: what fits is appended, the oldest byte is taken.
abbrev pub queue_step : ℕ → Op → List ℕ → Out × List ℕ
queue_step capacity (put_byte ch) q =
    if ltb (length q) capacity then (count 1, q ++ (u8 ch ∷ [])) else (count 0, q)
queue_step capacity get_byte [] = (byte none, [])
queue_step capacity get_byte (b ∷ q) = (byte (some b), q)
queue_step capacity flush_all q = (nothing, [])
queue_step capacity (put_bytes bytes) q =
    let n = min (length bytes) (capacity - length q) in (count n, q ++ take n bytes)

abbrev pub queue_run : ℕ → List Op → List ℕ → List Out × List ℕ
queue_run capacity [] q = ([], q)
queue_run capacity (op ∷ ops) q =
    let (out, q') = queue_step capacity op q in
    let (outs, last) = queue_run capacity ops q' in (out ∷ outs, last)

-- A result of the buffer and one of the queue agree.
pub record Agrees (capacity : ℕ) (p : Out × Cbuf) (q : Out × List ℕ) : Type 0 where
  pub valid : IsValid p.1
  pub same_mask : p.1.mask ≡ capacity
  pub outs : p.0 ≡ q.0
  pub queue : contents p.1 ≡ q.1

module _ {c : Cbuf} (v : IsValid c) where
  size : length (contents c) ≡ used c
  size = length-cyclic c.bytes (c.mask + 1) c.head (used c)

  put_byte-Agrees :
      (ch : ℕ) → Agrees c.mask (step (put_byte ch) c) (queue_step c.mask (put_byte ch) (contents c))
  unfolding step
  put_byte-Agrees ch = elim (Bool-cases (ltb (length (contents c)) c.mask)) [
    | inl fits ↦
        let lt : length (contents c) < c.mask = ltb→lt _ _ fits in
        let (out, a) = (putch_lem v ch).1 (omega (arith, lt, size, used-add-free v)) in
        rw fits
          (record { valid = a.valid; same_mask = a.capacity; outs = ap count out; queue = a.queue })
    | inr full ↦
        let none_free : free c ≡ 0 = ground (arith, full, size, used-add-free v) in
        let (out, a) = (putch_lem v ch).0 none_free in
        rw full (record {
          valid = a.valid;
          same_mask = a.capacity;
          outs = ap count out;
          queue = a.queue ∙ append-nil (contents c);
        })
  ]

  getch-mask : (getch c).1.mask ≡ c.mask
  unfolding getch
  getch-mask = elim (Bool-cases (c.head == c.tail)) [ inl e ↦ rw e refl | inr e ↦ rw e refl ]

  -- Taking a byte, by the queue that is there.
  get_byte-Agrees :
      (q : List ℕ) → contents c ≡ q → Agrees c.mask (step get_byte c) (queue_step c.mask get_byte q)
  unfolding step
  get_byte-Agrees [] e =
      let empty : used c ≡ 0 = omega (arith, size, ap (λ (q : List ℕ). length q) e) in
      let same = (getch_lem v).0 empty in
      record {
        valid = subst IsValid (sym (ap (λ p. p.1) same)) v;
        same_mask = getch-mask;
        outs = ap (λ p. byte p.0) same;
        queue = ap (λ p. contents p.1) same ∙ e;
      }
  get_byte-Agrees (b ∷ q) e =
      let some_used : 0 < used c = omega (arith, size, ap (λ (q : List ℕ). length q) e) in
      let (x, out, rest, valid) = (getch_lem v).1 some_used in
      let whole : b ∷ q ≡ x ∷ contents (getch c).1 = sym e ∙ rest in
      record {
        valid = valid;
        same_mask = getch-mask;
        outs = ap byte out ∙ ap (λ l. byte (some (get_or l 0 0))) (sym whole);
        queue = ap (drop 1) (sym whole);
      }

  step-Agrees : (op : Op) → Agrees c.mask (step op c) (queue_step c.mask op (contents c))
  step-Agrees (put_byte ch) = put_byte-Agrees ch
  step-Agrees get_byte = get_byte-Agrees (contents c) refl
  step-Agrees flush_all =
      unfold step in
      let (valid, empty, _) = flush-IsValid v in
      record {
        valid = valid;
        same_mask = unfold flush in refl;
        outs = refl;
        queue = ap (cyclic (flush c).bytes ((flush c).mask + 1) (flush c).head) empty;
      }
  step-Agrees (put_bytes bytes) =
      unfold step in
      let (out, a) = put_lem v bytes (length bytes) (omega arith) in
      let space : min (length bytes) (free c) ≡ min (length bytes) (c.mask - length (contents c)) =
        ap (min (length bytes)) (omega (arith, size, used-add-free v)) in
      record {
        valid = a.valid;
        same_mask = a.capacity;
        outs = ap count (out ∙ space);
        queue = a.queue ∙ ap (λ n. contents c ++ take n bytes) space;
      }

-- On a valid buffer, any sequence of `xbee_cbuf_putch`, `xbee_cbuf_getch`, `xbee_cbuf_put` of a
-- whole buffer, and `xbee_cbuf_flush` returns what a queue of bytes of the buffer's capacity,
-- `mask`, returns for the same calls, and leaves a valid buffer that holds what that queue does.
pub run-refines :
    (ops : List Op) (c : Cbuf)
    → IsValid c
    → ((run ops c).0 ≡ (queue_run c.mask ops (contents c)).0)
      × (contents (run ops c).1 ≡ (queue_run c.mask ops (contents c)).1)
      × IsValid (run ops c).1
unfolding run
run-refines [] c v = (refl, refl, v)
run-refines (op ∷ ops) c v =
    let one = step-Agrees v op in
    let (outs, queue, valid) = run-refines ops (step op c).1 one.valid in
    let next = ap₂ (λ m q. queue_run m ops q) one.same_mask one.queue in
    (
      ap₂ (λ o rest. o ∷ rest) one.outs (outs ∙ ap (λ p. p.0) next),
      queue ∙ ap (λ p. p.1) next,
      valid,
    )
