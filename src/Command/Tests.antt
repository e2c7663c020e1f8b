-- ===== src/Command/Tests.antt =====
-- xbee_atcmd.c at a table of two requests, the first in use.
use xbeepocs.Base.{
  List, [], arith, false, none, refl, ret, suc, true, zero, ℕ, ◌+◌, ◌<◌, ◌^◌, ◌∷◌, ◌≡◌, ◌≢◌,
}
use xbeepocs.Command.{Table, cleared, get_request, handle_to_address, release_handle}
use xbeepocs.Command.Handles.{IsTable, Created, create_lem, release_handle_lem}

abbrev table : Table
table = record (cleared 5) { in_use = true } ∷ cleared 255 ∷ []

abbrev letters : List ℕ
letters = 73 ∷ 68 ∷ []

table-IsTable : IsTable table
table-IsTable = record { size = refl; sequences = sequences }
  where
    sequences : (i : ℕ) → (get_request table i).sequence < 2 ^ 8
    sequences zero = omega arith
    sequences (suc zero) = omega arith
    sequences (suc (suc i)) = omega arith

-- The sequence number of a request wraps round.
second_released :
    (release_handle table (ret (256 + 255))).1
    ≡ record (cleared 5) { in_use = true } ∷ cleared 0 ∷ []
unfolding release_handle handle_to_address
second_released = refl

create_lem_example : Created table 2 letters
create_lem_example = create_lem table 2 letters table-IsTable

release_handle_lem_example :
    let t' = (release_handle table (ret 5)).1 in
    ((release_handle table (ret 5)).0 ≡ ret 0)
    × ((get_request t' 0).in_use ≡ false)
    × ((j : ℕ) → 0 ≢ j → get_request t' j ≡ get_request table j)
    × (handle_to_address t' (ret 5) ≡ none)
    × IsTable t'
unfolding handle_to_address
release_handle_lem_example = release_handle_lem table 5 0 table-IsTable refl
