-- ===== src/Command/Answers.antt =====
-- `_xbee_cmd_handle_response`: which request a frame answers, and what its callback gets.
use xbeepocs.Base.{
  Bool, Bool-cases, List, Option, [], ap, arith, false, if◌then◌else◌, inl, inr, length, none, refl,
  ret, set, some, subst, suc, sym, true, zero, ℕ, ◌+◌, ◌<◌, ◌==◌, ◌^◌, ◌∙◌, ◌∷◌, ◌≡◌, ◌≢◌,
}
use xbeepocs.Command.{Request, Table, tablesize, get_request, handle_to_address, released}
use xbeepocs.Command.Handles.{IsTable, get_request-set, set-IsTable, valid}
use xbeepocs.Command.Responses.{
  Response, State, Callbacks, Frame, parse_frame, matches_frame, find_request, build_response,
  call_back, after_callback, answer, handle_response, with_entry, set_timeout_sec,
}

find_request-none :
    (f : Frame) (t : Table) (k : ℕ)
    → ((j : ℕ) → j < length t → matches_frame f (get_request t j) ≡ false)
    → find_request f t k ≡ none
unfolding find_request
find_request-none f [] k other = refl
find_request-none f (r ∷ t) k other =
    rw (other 0 (omega arith)) (find_request-none f t (k + 1) (λ j lt. other (suc j) (omega arith)))

find_request-some :
    (f : Frame) (t : Table) (i k : ℕ)
    → i < length t
    → matches_frame f (get_request t i) ≡ true
    → ((j : ℕ) → j < i → matches_frame f (get_request t j) ≡ false)
    → find_request f t k ≡ some (k + i)
unfolding find_request
find_request-some f [] i k lt same other = absurd (omega arith)
find_request-some f (r ∷ t) zero k lt same other = rw same (ap some (omega arith))
find_request-some f (r ∷ t) (suc i) k lt same other = rw (other 0 (omega arith)) (
    find_request-some f t i (k + 1) (omega arith) same (λ j below. other (suc j) (omega arith))
    ∙ ap some (omega arith))

-- What becomes of a request whose callback returned `again` at `now`.
abbrev pub answered : ℕ → Bool → Request → Request
answered now again r = if again then record r { timeout = set_timeout_sec now 5 } else released r

answered-sequence :
    (now : ℕ) (again : Bool) (r : Request)
    → r.sequence < 2 ^ 8
    → (answered now again r).sequence < 2 ^ 8
answered-sequence now true r lt = lt
answered-sequence now false r lt = omega arith

-- Entry `i` is the first one that the frame answers.
abbrev pub IsFirst : Frame → Table → ℕ → Type 0
IsFirst f t i =
    (i < tablesize)
    × (matches_frame f (get_request t i) ≡ true)
    × ((j : ℕ) → j < i → matches_frame f (get_request t j) ≡ false)

module _ {W : Type 0} (seconds : W → ℕ) (call : Callbacks W) where
  after_callback-entry :
      (i : ℕ) (again : Bool) (s : State W)
      → after_callback seconds call i (again, s) ≡ with_entry i (answered (seconds s.world) again) s
  unfolding after_callback
  after_callback-entry i true s = refl
  after_callback-entry i false s = refl

  call_back-table :
      (callback : Option ℕ) (r : Response) (s : State W)
      → ((c : ℕ) (q : Response) (u : State W) → (call c q u).1.table ≡ u.table)
      → (call_back call callback r s).1.table ≡ s.table
  unfolding call_back
  call_back-table none r s keeps = refl
  call_back-table (some c) r s keeps = keeps c r s

  -- What the callback of entry `i` returns and leaves.
  abbrev pub called : Frame → ℕ → State W → Bool × State W
  called f i s =
      call_back call (get_request s.table i).callback (build_response f i (get_request s.table i)) s

  pub handle_response_lem :
      (raw : List ℕ) (size : ℕ) (f : Frame) (s : State W)
      → parse_frame raw size ≡ some f
      → IsTable s.table
      → ((c : ℕ) (q : Response) (u : State W) → (call c q u).1.table ≡ u.table)
      → (((j : ℕ) → j < tablesize → matches_frame f (get_request s.table j) ≡ false)
          → handle_response seconds call (some raw) size s ≡ (ret 0, s))
        × ((i : ℕ)
            → IsFirst f s.table i
            → let r = get_request s.table i in
              let (again, s1) = called f i s in
              let (result, s2) = handle_response seconds call (some raw) size s in
              (handle_to_address s.table (ret (build_response f i r).handle) ≡ some i)
              × (result ≡ ret 0)
              × (s2.world ≡ s1.world)
              × (get_request s2.table i ≡ answered (seconds s1.world) again r)
              × ((j : ℕ) → i ≢ j → get_request s2.table j ≡ get_request s.table j)
              × IsTable s2.table)
  unfolding build_response answer
  handle_response_lem raw size f s parsed v keeps = (
    λ other.
        unfold handle_response in
        rw
          (
            handle_response,
            parsed,
            find_request-none f s.table 0 (λ j lt. other j (omega (arith, v.size))),
          )
          refl,
    λ i first.
        let (lt, same, other) = first in
        let r = get_request s.table i in
        let (again, s1) = called f i s in
        let found : find_request f s.table 0 ≡ some i =
          find_request-some f s.table i 0 (omega (arith, v.size)) same other
          ∙ ap some (omega arith) in
        let new = answered (seconds s1.world) again in
        let small = answered-sequence (seconds s1.world) again r (v.sequences i) in
        let went : handle_response seconds call (some raw) size s ≡ (ret 0, with_entry i new s1) =
          unfold handle_response in
          rw (handle_response, parsed, found)
            (ap (λ u. (ret 0, u)) (after_callback-entry i again s1)) in
        let table = call_back-table r.callback (build_response f i r) s keeps in
        let now_is = get_request-set s.table i (new r) (omega (arith, v.size)) in
        let written : set s1.table i (new (get_request s1.table i)) ≡ set s.table i (new r) =
          ap (λ t. set t i (new (get_request t i))) table in
        let back = sym (ap (λ p. p.1.table) went ∙ written) in
        (
          valid s.table i lt (v.sequences i),
          ap (λ p. p.0) went,
          ap (λ p. p.1.world) went,
          subst (λ t. get_request t i ≡ new r) back now_is.0,
          subst (λ t. (j : ℕ) → i ≢ j → get_request t j ≡ get_request s.table j) back now_is.1,
          subst IsTable back (set-IsTable s.table i (new r) v (omega (arith, v.size)) small),
        ),
  )

  -- Under the same conditions, a response whose callback is done with it is dispatched once: when
  -- no other request is waiting for it, the same frame again changes nothing and calls nothing.
  pub handle_response-once :
      (raw : List ℕ) (size : ℕ) (f : Frame) (s : State W) (i : ℕ)
      → parse_frame raw size ≡ some f
      → IsTable s.table
      → ((c : ℕ) (q : Response) (u : State W) → (call c q u).1.table ≡ u.table)
      → i < tablesize
      → matches_frame f (get_request s.table i) ≡ true
      → ((j : ℕ) → j < tablesize → i ≢ j → matches_frame f (get_request s.table j) ≡ false)
      → (called f i s).0 ≡ false
      → let s2 = (handle_response seconds call (some raw) size s).1 in
        handle_response seconds call (some raw) size s2 ≡ (ret 0, s2)
  handle_response-once raw size f s i parsed v keeps lt same other done =
      let s1 = (called f i s).1 in
      let r = get_request s.table i in
      let (_, _, _, entry, rest, v2) =
        (handle_response_lem raw size f s parsed v keeps).1 i
          (lt, same, λ j below. other j (omega arith) (λ e. absurd (omega (arith, e)))) in
      let s2 = (handle_response seconds call (some raw) size s).1 in
      let gone : get_request s2.table i ≡ released r =
        entry ∙ ap (λ b. answered (seconds s1.world) b r) done in
      (handle_response_lem raw size f s2 parsed v2 keeps).0 (λ j below. elim (Bool-cases (i == j)) [
        | inl equal ↦
            let eq : i ≡ j = ground (arith, equal) in
            subst (λ k. matches_frame f (get_request s2.table k) ≡ false) eq
              (subst (λ q. matches_frame f q ≡ false) (sym gone) (unfold matches_frame in refl))
        | inr apart ↦
            let ne : i ≢ j = λ e. absurd (ground (arith, apart, e)) in
            subst (λ q. matches_frame f q ≡ false) (sym (rest j ne)) (other j below ne)
      ])
