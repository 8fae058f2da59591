-- ===== src/Calls/Invariant/CallRows.antt =====
-- Lemmas on the table calls: lookup and counting under UPDATE.
use brenox_engine.Base.{
  ℕ, ◌≤◌, ◌<◌, ◌≡◌, refl, Bool, false, List, [], ◌∷◌, Option, none, some, arith, ◌==◌,
  if◌then◌else◌, ==-refl, count_none, count-update-drop, count_found, select, count, update,
}
use brenox_engine.Db.Rooms.{Status, active, ended, Call, is_ended}
use brenox_engine.Queries.Calls.{has_id, is_live_in, with_status}

-- The ids fall along the list and stay under the bound.
abbrev pub Below : ℕ → List Call → Type 0
Below n [] = Unit {0}
Below n (c ∷ cs) = (c.id < n) × Below c.id cs

pub Below-mono : (m n : ℕ) (cs : List Call) → m ≤ n → Below m cs → Below n cs
Below-mono m n [] h b = tt
Below-mono m n (c ∷ cs) h b = (omega arith, b.1)

pub select_above : (id n : ℕ) (cs : List Call) → Below n cs → n ≤ id → select (has_id id) cs ≡ none
select_above id n [] b h = refl
select_above id n (c ∷ cs) b h = ground (arith, select_above id c.id cs b.1)

-- A row and what an UPDATE of its status makes of it.
abbrev pub restated : Status → ℕ → Bool → Option Call → Option Call
restated s now b none = none
restated s now b (some c) = some (if b then with_status s now c else c)

pub select-update :
    (id j : ℕ) (s : Status) (now : ℕ) (cs : List Call)
    → select (has_id j) (update (has_id id) (with_status s now) cs)
      ≡ restated s now (j == id) (select (has_id j) cs)
select-update id j s now [] = refl
select-update id j s now (c ∷ cs) = ground (arith, select-update id j s now cs)

-- The row that an UPDATE of the status leaves.
pub found-update :
    (c : Call) (s : Status) (now : ℕ) (cs : List Call)
    → select (has_id c.id) cs ≡ some c
    → select (has_id c.id) (update (has_id c.id) (with_status s now) cs)
      ≡ some (with_status s now c)
found-update c s now cs found = rw (select-update c.id c.id s now cs, ==-refl c.id, found) refl

pub update-Below :
    (id n : ℕ) (s : Status) (now : ℕ) (cs : List Call)
    → Below n cs
    → Below n (update (has_id id) (with_status s now) cs)
update-Below id n s now [] b = tt
update-Below id n s now (c ∷ cs) b = ground (arith, update-Below id c.id s now cs b.1)

pub update_above :
    (id n : ℕ) (s : Status) (now : ℕ) (cs : List Call)
    → Below n cs
    → n ≤ id
    → update (has_id id) (with_status s now) cs ≡ cs
update_above id n s now [] b h = refl
update_above id n s now (c ∷ cs) b h = ground (arith, update_above id c.id s now cs b.1)

-- Ending a call makes no channel busier.
pub live-end :
    (ch id now : ℕ) (cs : List Call)
    → count (is_live_in ch) (update (has_id id) (with_status ended now) cs)
      ≤ count (is_live_in ch) cs
live-end ch id now [] = omega arith
live-end ch id now (c ∷ cs) = ground (arith, live-end ch id now cs)

-- A call that is still live stays one live call when it becomes active.
pub live-activate :
    (ch id now n : ℕ) (cs : List Call) (c : Call)
    → Below n cs
    → select (has_id id) cs ≡ some c
    → is_ended c.status ≡ false
    → count (is_live_in ch) (update (has_id id) (with_status active now) cs)
      ≡ count (is_live_in ch) cs
live-activate ch id now n [] c b f l = refl
live-activate ch id now n (x ∷ cs) c b f l =
    ground (arith, live-activate ch id now x.id cs c b.1, update_above id x.id active now cs b.1)

found-Below :
    (p : Call → Bool) (n : ℕ) (cs : List Call) (c : Call)
    → Below n cs
    → select p cs ≡ some c
    → c.id < n
found-Below p n [] c b h = absurd (ground arith)
found-Below p n (x ∷ cs) c b h = ground (arith, found-Below p x.id cs c b.1)

-- A row that some query found is the row of its id.
pub found_by_id :
    (p : Call → Bool) (n : ℕ) (cs : List Call) (c : Call)
    → Below n cs
    → select p cs ≡ some c
    → select (has_id c.id) cs ≡ some c
found_by_id p n [] c b h = absurd (ground arith)
found_by_id p n (x ∷ cs) c b h =
    ground (arith, found_by_id p x.id cs c b.1, found-Below p x.id cs c b.1)

-- Ending the only live call of a channel frees the channel.
pub live-end-none :
    (ch now : ℕ) (cs : List Call) (c : Call)
    → count (is_live_in ch) cs ≤ 1
    → select (is_live_in ch) cs ≡ some c
    → select (is_live_in ch) (update (has_id c.id) (with_status ended now) cs) ≡ none
live-end-none ch now cs c one found =
    count_none (is_live_in ch) (update (has_id c.id) (with_status ended now) cs) (
      omega (
        arith,
        count-update-drop (is_live_in ch) (has_id c.id) (with_status ended now) cs
            (λ x h. ground arith),
        count_found (has_id c.id) (is_live_in ch) cs c found (==-refl c.id),
      ))
