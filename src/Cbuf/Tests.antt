-- ===== src/Cbuf/Tests.antt =====
-- xbee_cbuf.c run on a 4-byte array, and its theorems at concrete buffers.
use xbeepocs.Base.{List, [], arith, min, none, refl, some, take, ◌++◌, ◌∷◌, ◌≡◌, ◌≢◌}
use xbeepocs.Cbuf.{Cbuf, init, getch, used, free, put, get}
use xbeepocs.Cbuf.Index.{IsValid}
use xbeepocs.Cbuf.Put.{Appended, put_lem}
use xbeepocs.Cbuf.Get.{get_lem, get_overrun}
use xbeepocs.Cbuf.Contents.{contents}
use xbeepocs.Cbuf.Refine.{Op, put_byte, get_byte, put_bytes, run, queue_run, run-refines}

abbrev blank : Cbuf
blank = record { head = 9; tail = 9; mask = 9; bytes = 0 ∷ 0 ∷ 0 ∷ 0 ∷ [] }

-- 7, then 8, round the end of the array
abbrev wrapped : Cbuf
wrapped = record { head = 3; tail = 1; mask = 3; bytes = 8 ∷ 0 ∷ 0 ∷ 7 ∷ [] }

-- 5, 6 and 7, up to the end of the array
abbrev at_end : Cbuf
at_end = record { head = 1; tail = 0; mask = 3; bytes = 0 ∷ 5 ∷ 6 ∷ 7 ∷ [] }

wrapped-IsValid : IsValid wrapped
wrapped-IsValid = record {
  bits = 2;
  size = refl;
  bits_le = omega arith;
  at_least = omega arith;
  head_in = omega arith;
  tail_in = omega arith;
  room = omega arith;
}

at_end-IsValid : IsValid at_end
at_end-IsValid = record {
  bits = 2;
  size = refl;
  bits_le = omega arith;
  at_least = omega arith;
  head_in = omega arith;
  tail_in = omega arith;
  room = omega arith;
}

init_sizes :
    (init (some blank) 3 ≡ some (record blank { mask = 3; head = 0; tail = 0 }))
    × (init (some blank) 4 ≡ none)
    × (init none 3 ≡ none)
unfolding init
init_sizes = (refl, refl, refl)

wrapped-contents : contents wrapped ≡ 7 ∷ 8 ∷ []
unfolding used
wrapped-contents = refl

-- All three bytes are read, and the buffer says it is empty and not empty at once.
overrun : (get at_end 3).2.head ≡ 4
unfolding get used
overrun = refl

put_lem_example :
    ((put wrapped (1 ∷ 2 ∷ []) 2).0 ≡ min 2 (free wrapped))
    × Appended wrapped (put wrapped (1 ∷ 2 ∷ []) 2).1 (take (min 2 (free wrapped)) (1 ∷ 2 ∷ []))
put_lem_example = put_lem wrapped-IsValid (1 ∷ 2 ∷ []) 2 (omega arith)

get_lem_example :
    let k = min 2 (used wrapped) in
    ((get wrapped 2).0 ≡ k)
    × ((get wrapped 2).1 ≡ take k (contents wrapped))
    × (k ≢ 1
        → IsValid (get wrapped 2).2
          × (contents wrapped ≡ (get wrapped 2).1 ++ contents (get wrapped 2).2))
get_lem_example = get_lem wrapped-IsValid 2

get_overrun_example :
    ((get at_end 3).2.head ≡ 4)
    × (at_end.tail ≡ 0 → (used (get at_end 3).2 ≡ 0) × ((getch (get at_end 3).2).0 ≢ none))
unfolding used
get_overrun_example = get_overrun at_end-IsValid 3 refl

-- Two bytes are put in one call, one is taken, and the third byte finds room again.
abbrev calls : List Op
calls = put_bytes (1 ∷ 2 ∷ []) ∷ get_byte ∷ put_byte 300 ∷ []

run-refines_example :
    ((run calls wrapped).0 ≡ (queue_run 3 calls (contents wrapped)).0)
    × (contents (run calls wrapped).1 ≡ (queue_run 3 calls (contents wrapped)).1)
    × IsValid (run calls wrapped).1
run-refines_example = run-refines calls wrapped wrapped-IsValid
