-- ===== src/Calls/Invariant/Moves.antt =====
-- Each write keeps the invariant and moves every call onward.
use brenox_engine.Base.{
  ℕ, ◌+◌, ◌≤◌, ◌<◌, ◌≡◌, refl, Bool, true, false, List, ◌∷◌, Option, none, some, String, arith,
  ◌==◌, count, select, select-count, count-update-le, count-update-out, Option-cases, Bool-cases,
  inl, inr, update, ==→eq,
}
use brenox_engine.Db.Rooms.{Status, ringing, active, ended, Mode, Call, Recording, Rooms, is_ended}
use brenox_engine.Queries.Calls.{
  in_call, is_user_in_call, has_id, find_call, find_live, find_participant, active_count,
  with_status, insert_call, set_status, insert_participant, departed, set_left, is_open_recording,
  find_open_recording, insert_recording, set_recording_ended, is_open_with_id, new_recording,
  closed,
}
use brenox_engine.Calls.Invariant.CallRows.{select_above, restated, select-update}
use brenox_engine.Calls.Invariant.Steps.{
  Inv, Safe, Onward, Onward-refl, Onward-trans, rank, insert_call-Inv, end-Inv, activate-Inv,
  join-Inv, left-Inv,
}

pub Safe-refl : (max : ℕ) (R : Rooms) → Inv max R → Safe max R R
Safe-refl max R v = record { inv = v; onward = λ id. Onward-refl (find_call id R) }

Safe-step :
    (max : ℕ) (R0 R R' : Rooms)
    → Safe max R0 R
    → Inv max R'
    → ((id : ℕ) → Onward (find_call id R) (find_call id R'))
    → Safe max R0 R'
Safe-step max R0 R R' s v h = record {
  inv = v;
  onward = λ id. Onward-trans _ _ _ (s.onward id) (h id);
}

pub insert_call-Safe :
    (max : ℕ) (R0 : Rooms) (ch ws u : ℕ) (m : Mode) (now : ℕ) (R : Rooms)
    → Safe max R0 R
    → find_live ch R ≡ none
    → Safe max R0 (insert_call ch ws u ringing m now R).1
insert_call-Safe max R0 ch ws u m now R s free =
    Safe-step max R0 R _ s (insert_call-Inv max ch ws u m now R s.inv free) λ id.
      elim (Bool-cases (R.next_call == id)) [
        | inl new ↦ rw (select_above id R.next_call R.calls s.inv.fresh (ground arith)) tt
        | inr old ↦ rw old (Onward-refl (find_call id R))
      ]

Onward-restated :
    (st : Status) (now : ℕ) (b : Bool) (o : Option Call)
    → (b ≡ true
        → (c : Call) × (o ≡ some c) × (is_ended c.status ≡ false) × (rank c.status ≤ rank st))
    → Onward o (restated st now b o)
Onward-restated st now b none h = tt
Onward-restated st now false (some c) h = Onward-refl (some c)
Onward-restated st now true (some c) h = ground (arith, h refl)

pub set_status-onward :
    (max : ℕ) (R0 : Rooms) (id : ℕ) (st : Status) (now : ℕ) (R : Rooms) (c : Call)
    → Safe max R0 R
    → find_call id R ≡ some c
    → is_ended c.status ≡ false
    → rank c.status ≤ rank st
    → Inv max (set_status id st now R).1
    → Safe max R0 (set_status id st now R).1
set_status-onward max R0 id st now R c s f l r v = Safe-step max R0 R _ s v λ j.
    rw (f, set_status)
      (rw (select-update id j st now R.calls)
        (Onward-restated st now (j == id) (find_call j R) λ e. (c, rw (==→eq j id e) f, l, r)))

pub end-Safe :
    (max : ℕ) (R0 : Rooms) (id now : ℕ) (R : Rooms) (c : Call)
    → Safe max R0 R
    → find_call id R ≡ some c
    → is_ended c.status ≡ false
    → active_count id R ≡ 0
    → Safe max R0 (set_status id ended now R).1
end-Safe max R0 id now R c s f l z =
    set_status-onward max R0 id ended now R c s f l (ground arith) (end-Inv max id now R s.inv z)

pub activate-Safe :
    (max : ℕ) (R0 : Rooms) (id now : ℕ) (R : Rooms) (c : Call)
    → Safe max R0 R
    → find_call id R ≡ some c
    → c.status ≡ ringing
    → Safe max R0 (set_status id active now R).1
activate-Safe max R0 id now R c s f l =
    set_status-onward max R0 id active now R c s f (rw l refl) (rw l (omega arith))
      (activate-Inv max id now R c s.inv f (rw l refl))

-- Who is in a call does not touch the calls.
pub join-calls : (id u now : ℕ) (R : Rooms) → (insert_participant id u now R).1.calls ≡ R.calls
join-calls id u now R = ground arith

pub left-calls : (id u now : ℕ) (R : Rooms) → (set_left id u now R).1.calls ≡ R.calls
left-calls id u now R = ground arith

pub join-Safe :
    (max : ℕ) (R0 : Rooms) (id u now : ℕ) (R : Rooms) (c : Call)
    → Safe max R0 R
    → find_call id R ≡ some c
    → is_ended c.status ≡ false
    → (0 < max → active_count id R < max)
    → Safe max R0 (insert_participant id u now R).1
join-Safe max R0 id u now R c s f l room =
    Safe-step max R0 R _ s (join-Inv max id u now R c s.inv f l room)
      λ j. rw (join-calls id u now R) (Onward-refl (find_call j R))

pub left-Safe :
    (max : ℕ) (R0 : Rooms) (id u now : ℕ) (R : Rooms)
    → Safe max R0 R
    → Safe max R0 (set_left id u now R).1
left-Safe max R0 id u now R s =
    Safe-step max R0 R _ s (left-Inv max id u now R s.inv)
      λ j. rw (left-calls id u now R) (Onward-refl (find_call j R))

recordings-Safe :
    (max : ℕ) (R0 R : Rooms) (rs : List Recording) (next : ℕ)
    → Safe max R0 R
    → ((id : ℕ) → count (is_open_recording id) rs ≤ 1)
    → Safe max R0 (record R { recordings = rs; next_recording = next })
recordings-Safe max R0 R rs next s h = record {
  inv = record {
    fresh = s.inv.fresh;
    stamped = s.inv.stamped;
    one_live = s.inv.one_live;
    vacated = s.inv.vacated;
    single = s.inv.single;
    fits = s.inv.fits;
    one_recording = h;
  };
  onward = s.onward;
}

count-new_recording :
    (id j : ℕ) (r : Recording) (rs : List Recording)
    → r.call_id ≡ id
    → select (is_open_recording id) rs ≡ none
    → count (is_open_recording j) rs ≤ 1
    → count (is_open_recording j) (r ∷ rs) ≤ 1
count-new_recording id j r rs e n h = elim (Bool-cases (is_open_recording j r)) [
  | inl same ↦
      let here : j ≡ id = ground arith in
      let empty : count (is_open_recording j) rs ≡ 0 = rw here (select-count _ rs n) in
      rw same (omega arith)
  | inr other ↦ rw other (omega arith)
]

pub record-Safe :
    (max : ℕ) (R0 : Rooms) (id u : ℕ) (bytes : String) (now : ℕ) (R : Rooms)
    → Safe max R0 R
    → Safe max R0 (insert_recording id u bytes now R).1
record-Safe max R0 id u bytes now R s = elim (Option-cases (find_open_recording id R)) [
  | inl free ↦
      rw (free, insert_recording)
        (recordings-Safe max R0 R _ _ s λ j.
          count-new_recording id j (new_recording id u bytes R.next_recording now) R.recordings refl
            free (s.inv.one_recording j))
  | inr (r, busy) ↦ rw (busy, insert_recording) s
]

is_open_recording-closed :
    (j now : ℕ) (r : Recording)
    → is_open_recording j (closed now r) ≡ true
    → is_open_recording j r ≡ true
is_open_recording-closed j now r h = ground arith

pub close-Safe :
    (max : ℕ) (R0 : Rooms) (id call now : ℕ) (R : Rooms)
    → Safe max R0 R
    → Safe max R0 (set_recording_ended id call now R).1
close-Safe max R0 id call now R s =
    elim (Option-cases (select (is_open_with_id id call) R.recordings)) [
      | inl absent ↦ rw (absent, set_recording_ended) s
      | inr (r, present) ↦
          rw (present, set_recording_ended)
            (recordings-Safe max R0 R _ R.next_recording s λ j. omega (
              arith,
              count-update-le (is_open_recording j) (is_open_with_id id call) (closed now)
                  R.recordings (is_open_recording-closed j now),
              s.inv.one_recording j,
            ))
    ]

-- Marking a user as left takes from a call exactly the rows in which the user was in it.
pub active_count-left :
    (id u now : ℕ) (R : Rooms)
    → active_count id (set_left id u now R).1 + count (is_user_in_call id u) R.participants
      ≡ active_count id R
active_count-left id u now R = elim (Option-cases (find_participant id u R)) [
  | inl absent ↦
      rw (absent, set_left)
        (omega (arith, select-count (is_user_in_call id u) R.participants absent))
  | inr (p, present) ↦
      rw (present, set_left)
        (count-update-out (in_call id) (is_user_in_call id u) (departed now) R.participants
          (λ x h. ground arith) (λ x. ground arith))
]

pub status-calls :
    (id : ℕ) (st : Status) (now : ℕ) (R : Rooms) (c : Call)
    → find_call id R ≡ some c
    → (set_status id st now R).1.calls ≡ update (has_id id) (with_status st now) R.calls
status-calls id st now R c f = rw (f, set_status) refl
