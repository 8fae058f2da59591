-- ===== src/Calls/Invariant/Steps.antt =====
-- The invariant of the tables, the order of a call's life, and each write that keeps both.
use brenox_engine.Base.{
  ℕ, ◌+◌, ◌≤◌, ◌<◌, ◌≡◌, refl, ◌∙◌, true, false, List, [], ◌∷◌, Option, none, some, arith, ◌==◌,
  ==→eq, select, count, update, is_some, All, count-append, count-update-le, select-count,
  Option-cases, Bool-cases, inl, inr,
}
use brenox_engine.Db.Rooms.{
  Status, ringing, active, ended, Mode, Call, Participant, Rooms, is_ended,
}
use brenox_engine.Queries.Calls.{
  in_call, is_user_in_call, has_id, is_live_in, find_call, find_live, find_participant,
  active_count, with_status, insert_call, set_status, insert_participant, seat, departed, set_left,
  is_open_recording,
}
use brenox_engine.Calls.Invariant.CallRows.{
  Below, select-update, update-Below, live-end, live-activate, update_above,
}

-- A call carries an end time exactly when it has ended.
abbrev pub IsStamped : Call → Type 0
IsStamped c = is_some c.ended_at ≡ is_ended c.status

abbrev pub IsVacated : Option Call → ℕ → Type 0
IsVacated none n = n ≡ 0
IsVacated (some c) n = is_ended c.status ≡ true → n ≡ 0

pub record Inv (max : ℕ) (R : Rooms) : Type 0 where
  -- ids are given once
  pub fresh : Below R.next_call R.calls
  pub stamped : All IsStamped R.calls
  -- a channel has one live call at most
  pub one_live : (channel : ℕ) → count (is_live_in channel) R.calls ≤ 1
  -- nobody is in a call that has ended, or that does not exist
  pub vacated : (id : ℕ) → IsVacated (find_call id R) (active_count id R)
  -- nobody is in a call twice
  pub single : (id user : ℕ) → count (is_user_in_call id user) R.participants ≤ 1
  -- no call holds more than `max` participants, if there is such a limit
  pub fits : 0 < max → (id : ℕ) → active_count id R ≤ max
  -- a call has one open recording at most
  pub one_recording : (id : ℕ) → count (is_open_recording id) R.recordings ≤ 1

abbrev pub rank : Status → ℕ
rank ringing = 0
rank active = 1
rank ended = 2

-- What a call may turn into: it keeps its identity, its status only moves forward, and once it has
-- ended nothing of it changes.
abbrev pub Onward : Option Call → Option Call → Type 0
Onward none o = Unit
Onward (some c) none = ⊥
Onward (some c) (some c') =
    (c'.id ≡ c.id)
    × (c'.channel_id ≡ c.channel_id)
    × (c'.workspace_id ≡ c.workspace_id)
    × (c'.mode ≡ c.mode)
    × (rank c.status ≤ rank c'.status)
    × (is_ended c.status ≡ true → c' ≡ c)

pub Onward-refl : (o : Option Call) → Onward o o
Onward-refl none = tt
Onward-refl (some c) = (refl, refl, refl, refl, omega arith, λ h. refl)

pub Onward-trans : (a b c : Option Call) → Onward a b → Onward b c → Onward a c
Onward-trans none b c h k = tt
Onward-trans (some a) none c h k = absurd h
Onward-trans (some a) (some b) none h k = absurd k
Onward-trans (some a) (some b) (some c) h k = (
  k.0 ∙ h.0,
  k.1 ∙ h.1,
  k.2 ∙ h.2,
  k.3 ∙ h.3,
  omega arith,
  λ e. let q = h.5 e in k.5 (rw q e) ∙ q,
)

-- The tables keep the invariant, and every call that `R` holds has only moved on.
pub record Safe (max : ℕ) (R R' : Rooms) : Type 0 where
  pub inv : Inv max R'
  pub onward : (id : ℕ) → Onward (find_call id R) (find_call id R')

module _ (max : ℕ) where
  pub insert_call-Inv :
      (ch ws u : ℕ) (m : Mode) (now : ℕ) (R : Rooms)
      → Inv max R
      → find_live ch R ≡ none
      → Inv max (insert_call ch ws u ringing m now R).1
  insert_call-Inv ch ws u m now R v free = record {
    fresh = (omega arith, v.fresh);
    stamped = (refl, v.stamped);
    one_live =
        λ c. ground (arith, v.one_live c, v.one_live ch, select-count (is_live_in ch) R.calls free);
    vacated = λ id. ground (arith, v.vacated id);
    single = v.single;
    fits = v.fits;
    one_recording = v.one_recording;
  }

IsStamped-end :
    (id now : ℕ) (cs : List Call)
    → All IsStamped cs
    → All IsStamped (update (has_id id) (with_status ended now) cs)
IsStamped-end id now [] h = tt
IsStamped-end id now (c ∷ cs) h = ground (arith, IsStamped-end id now cs h.1)

IsStamped-activate :
    (id now n : ℕ) (cs : List Call) (c : Call)
    → Below n cs
    → select (has_id id) cs ≡ some c
    → is_ended c.status ≡ false
    → All IsStamped cs
    → All IsStamped (update (has_id id) (with_status active now) cs)
IsStamped-activate id now n [] c b f l h = tt
IsStamped-activate id now n (x ∷ cs) c b f l h =
    ground (arith, IsStamped-activate id now x.id cs c b.1, update_above id x.id active now cs b.1)

-- A call may end once nobody is in it.
module _ (max : ℕ) where
  pub end-Inv :
      (id now : ℕ) (R : Rooms)
      → Inv max R
      → active_count id R ≡ 0
      → Inv max (set_status id ended now R).1
  end-Inv id now R v empty = elim (Option-cases (find_call id R)) [
    | inl absent ↦ rw (absent, set_status) v
    | inr (c, present) ↦
        rw (present, set_status)
          (record {
            fresh = update-Below id R.next_call ended now R.calls v.fresh;
            stamped = IsStamped-end id now R.calls v.stamped;
            one_live = λ ch. omega (arith, live-end ch id now R.calls, v.one_live ch);
            vacated =
                λ j. rw (select-update id j ended now R.calls) (ground (arith, v.vacated j, empty));
            single = v.single;
            fits = v.fits;
            one_recording = v.one_recording;
          })
  ]

module _ (max : ℕ) where
  pub activate-Inv :
      (id now : ℕ) (R : Rooms) (c : Call)
      → Inv max R
      → find_call id R ≡ some c
      → is_ended c.status ≡ false
      → Inv max (set_status id active now R).1
  activate-Inv id now R c v f l =
      rw (f, set_status)
        (record {
          fresh = update-Below id R.next_call active now R.calls v.fresh;
          stamped = IsStamped-activate id now R.next_call R.calls c v.fresh f l v.stamped;
          one_live =
              λ ch. rw (live-activate ch id now R.next_call R.calls c v.fresh f l) (v.one_live ch);
          vacated = λ j. rw (select-update id j active now R.calls) (ground (arith, v.vacated j));
          single = v.single;
          fits = v.fits;
          one_recording = v.one_recording;
        })

IsVacated-le : (o : Option Call) (m n : ℕ) → n ≤ m → IsVacated o m → IsVacated o n
IsVacated-le none m n h v = omega arith
IsVacated-le (some c) m n h v = λ e. omega (arith, v e)

-- A participant who left is in no call.
in_call-departed :
    (j now : ℕ) (p : Participant) → in_call j (departed now p) ≡ true → in_call j p ≡ true
in_call-departed j now p h = ground arith

is_user_in_call-departed :
    (j w now : ℕ) (p : Participant)
    → is_user_in_call j w (departed now p) ≡ true
    → is_user_in_call j w p ≡ true
is_user_in_call-departed j w now p h = ground arith

-- A new participant of a live call keeps the other calls as they were.
IsVacated-seat :
    (id u now j n : ℕ) (o : Option Call) (c : Call)
    → ((j == id) ≡ true → o ≡ some c)
    → is_ended c.status ≡ false
    → IsVacated o n
    → IsVacated o (n + count (in_call j) (seat id u now ∷ []))
IsVacated-seat id u now j n none c f l v = ground (arith, f)
IsVacated-seat id u now j n (some x) c f l v = ground (arith, f)

seat_holder : (id u now j w : ℕ) → is_user_in_call j w (seat id u now) ≡ true → (id ≡ j) × (u ≡ w)
seat_holder id u now j w h = ground arith

fits-seat :
    (max id u now j : ℕ) (ps : List Participant)
    → count (in_call id) ps < max
    → count (in_call j) ps ≤ max
    → count (in_call j) ps + count (in_call j) (seat id u now ∷ []) ≤ max
fits-seat max id u now j ps room h = elim (Bool-cases (in_call j (seat id u now))) [
  | inl same ↦
      let e : id ≡ j = ground arith in
      let below : count (in_call j) ps < max = rw (← e) room in rw same (omega arith)
  | inr other ↦ rw other (omega arith)
]

single-seat :
    (id u now j w : ℕ) (ps : List Participant)
    → count (is_user_in_call id u) ps ≡ 0
    → count (is_user_in_call j w) ps ≤ 1
    → count (is_user_in_call j w) ps + count (is_user_in_call j w) (seat id u now ∷ []) ≤ 1
single-seat id u now j w ps z h = elim (Bool-cases (is_user_in_call j w (seat id u now))) [
  | inl same ↦
      let e = seat_holder id u now j w same in
      let none_yet : count (is_user_in_call j w) ps ≡ 0 = rw (← e.0, ← e.1) z in
      rw same (omega arith)
  | inr other ↦ rw other (omega arith)
]

module _ (max : ℕ) where
  pub join-Inv :
      (id u now : ℕ) (R : Rooms) (c : Call)
      → Inv max R
      → find_call id R ≡ some c
      → is_ended c.status ≡ false
      → (0 < max → active_count id R < max)
      → Inv max (insert_participant id u now R).1
  join-Inv id u now R c v f l room = elim (Option-cases (find_participant id u R)) [
    | inl absent ↦
        rw (absent, insert_participant)
          (record {
            fresh = v.fresh;
            stamped = v.stamped;
            one_live = v.one_live;
            vacated = λ j.
                rw count-append
                  (IsVacated-seat id u now j _ _ c (λ e. rw (==→eq j id e) f) l (v.vacated j));
            single = λ j w. rw count-append (
                single-seat id u now j w R.participants (select-count _ R.participants absent)
                  (v.single j w));
            fits = λ h j.
                rw count-append (fits-seat max id u now j R.participants (room h) (v.fits h j));
            one_recording = v.one_recording;
          })
    | inr (p, present) ↦ rw (present, insert_participant) v
  ]

module _ (max : ℕ) where
  pub left-Inv : (id u now : ℕ) (R : Rooms) → Inv max R → Inv max (set_left id u now R).1
  left-Inv id u now R v = elim (Option-cases (find_participant id u R)) [
    | inl absent ↦ rw (absent, set_left) v
    | inr (p, present) ↦
        rw (present, set_left)
          (record {
            fresh = v.fresh;
            stamped = v.stamped;
            one_live = v.one_live;
            vacated = λ j.
                IsVacated-le _ _ _
                  (count-update-le (in_call j) _ _ R.participants (in_call-departed j now))
                  (v.vacated j);
            single = λ j w. omega (
              arith,
              count-update-le (is_user_in_call j w) (is_user_in_call id u) (departed now)
                  R.participants (is_user_in_call-departed j w now),
              v.single j w,
            );
            fits = λ h j. omega (
              arith,
              count-update-le (in_call j) (is_user_in_call id u) (departed now) R.participants
                  (in_call-departed j now),
              v.fits h j,
            );
            one_recording = v.one_recording;
          })
  ]
