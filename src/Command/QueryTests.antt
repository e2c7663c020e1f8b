-- ===== src/Command/QueryTests.antt =====
-- The query of a device that answers each command.
use xbeepocs.Base.{
  List, [], arith, ebusy, enospc, fail, false, none, refl, ret, suc, true, zero, ℕ, ◌++◌, ◌+◌, ◌<◌,
  ◌∷◌, ◌≡◌,
}
use xbeepocs.Device.Tests.{wire, Wire, dev, idle}
use xbeepocs.Command.{Table, cleared, find_free, tablesize, get_request}
use xbeepocs.Command.Responses.{Response, Callbacks}
use xbeepocs.Command.Tick.{due}
use xbeepocs.Command.Lists.{Memory}
use xbeepocs.Command.Lists.Run.{Machine, list_status}
use xbeepocs.Command.Lists.Turns.{deliver}
use xbeepocs.Command.Lists.Effects.{Answers}
use xbeepocs.Command.Query.{on_query_reg, query_regs, query_end, query_device}
use xbeepocs.Command.Learned.{responses, AreGood, Knows}
use xbeepocs.Command.Queried.{query-IsDone}
use xbeepocs.Command.Full.{tick_of, query_device-full}

-- A response with a value of `length` bytes.
abbrev reply : List ℕ → ℕ → List ℕ → ℕ → Response
reply command size bytes value = record {
  source = none;
  handle = 5;
  context = 0;
  command = command;
  flags = 0;
  value_bytes = bytes;
  value_length = size;
  value = value;
}

abbrev hv : Response
hv = reply (72 ∷ 86 ∷ []) 2 (25 ∷ 68 ∷ []) 0x1944

abbrev hs : Response
hs = reply (72 ∷ 83 ∷ []) 2 (0 ∷ 7 ∷ []) 7

abbrev vr : Response
vr = reply (86 ∷ 82 ∷ []) 4 (0 ∷ 1 ∷ 0 ∷ 2 ∷ []) 0x10002

abbrev sh : Response
sh = reply (83 ∷ 72 ∷ []) 4 (0 ∷ 19 ∷ 162 ∷ 0 ∷ []) 0x13A200

abbrev sl : Response
sl = reply (83 ∷ 76 ∷ []) 4 (64 ∷ 10 ∷ 11 ∷ 12 ∷ []) 0x400A0B0C

abbrev eo : Response
eo = reply (69 ∷ 79 ∷ []) 1 (8 ∷ []) 8

abbrev ai : Response
ai = reply (65 ∷ 73 ∷ []) 1 (0 ∷ []) 0

abbrev np : Response
np = reply (78 ∷ 80 ∷ []) 2 (0 ∷ 73 ∷ []) 73

abbrev my : Response
my = reply (77 ∷ 89 ∷ []) 2 (18 ∷ 52 ∷ []) 0x1234

abbrev late : Response
late = record hv { flags = 0x8000 + 0x000F }

abbrev table : Table
table =
    record (cleared 5) { in_use = true; timeout = 2 }
    ∷ record (cleared 6) { in_use = true; timeout = 2 }
    ∷ []

-- The query has just sent its first command.
abbrev started : Machine wire
started = record {
  table = table;
  last_time = 0;
  dev = dev;
  world = record {
    head = record { list = query_regs ++ (query_end ∷ []); status = fail ebusy; index = 0 };
    world = idle;
  };
}

-- The query waits for the response to EO.
abbrev in_progress : Machine wire
in_progress = record started {
  dev = record dev { flags = record (dev.flags) { query_inprogress = true } };
  world = record (started.world) { head = record (started.world.head) { index = 5 } };
}

abbrev seconds : Wire → ℕ
seconds w = 0

abbrev same : Machine wire → Machine wire
same s = s

all_answered : Answers query_regs (responses hv hs vr sh sl eo ai np my)
all_answered = (
  (refl, refl, refl, refl),
  (
    (refl, refl, refl, refl),
    (
      (refl, refl, refl, refl),
      (
        (refl, refl, refl, refl),
        (
          (refl, refl, refl, refl),
          (
            (refl, refl, refl, refl),
            ((refl, refl, refl, refl), ((refl, refl, refl, refl), ((refl, refl, refl, refl), _))),
          ),
        ),
      ),
    ),
  ),
)

all_good : AreGood hv hs vr sh sl eo ai np my
all_good = record {
  hv_ok = refl;
  hs_ok = refl;
  vr_ok = refl;
  sh_ok = refl;
  sl_ok = refl;
  eo_ok = refl;
  ai_ok = refl;
  np_ok = refl;
  my_ok = refl;
  joined = refl;
}

query-IsDone_example :
    let (reused, s') =
      deliver wire seconds
        (on_query_reg wire seconds same)
        (responses hv hs vr sh sl eo ai np my)
        started in
    (reused ≡ false)
    × (list_status wire seconds s' ≡ ret 0)
    × (s'.dev.flags.query_done ≡ true)
    × (s'.dev.flags.query_inprogress ≡ false)
    × Knows s'.dev hv hs vr (0 ∷ 19 ∷ 162 ∷ 0 ∷ 64 ∷ 10 ∷ 11 ∷ 12 ∷ []) np my
query-IsDone_example =
    query-IsDone wire seconds same hv hs vr sh sl eo ai np my 0 19 162 0 64 10 11 12 started refl
      refl refl refl refl all_answered all_good (refl, refl) (refl, refl)

-- Both requests have time left at second 0.
full_table : (j : ℕ) → j < tablesize → due 0 (get_request table j) ≡ false
full_table zero lt = refl
full_table (suc zero) lt = refl
full_table (suc (suc j)) lt = absurd (omega arith)

abbrev done_with : Callbacks (Memory Wire)
done_with c r s = (false, s)

query_device-full_example :
    let (result, s') =
      query_device wire seconds (tick_of wire seconds done_with same) false started in
    (result ≡ fail enospc)
    × (list_status wire seconds s' ≡ fail ebusy)
    × (s'.dev.flags.query_inprogress ≡ false)
    × (s'.table ≡ table)
query_device-full_example =
    query_device-full wire seconds done_with same started refl none_free full_table
  where
    none_free : find_free table 0 ≡ none
    none_free = unfold find_free in refl
