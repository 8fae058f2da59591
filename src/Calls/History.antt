-- ===== src/Calls/History.antt =====
-- Histories: the requests that the service serves, in any order, with anything that the rest of the
-- program does in between.
use brenox_engine.Base.{ℕ, ◌≡◌, refl, Option, String}
use brenox_engine.Base.Monad.{Result, ok, err}
use brenox_engine.Db.{Db, Error, M, rooms}
use brenox_engine.Db.Rooms.{Rooms}
use brenox_engine.Db.Triple.{Post}
use brenox_engine.Calls.Interfaces.{Service, IsLawful}
use brenox_engine.Calls.Service.{initiate_call, join_call, leave_call}
use brenox_engine.Calls.Recordings.{start_recording, stop_recording}
use brenox_engine.Calls.Invariant.{Inv, Safe, Safe-refl}
use brenox_engine.Calls.Safety.{
  initiate_call-Keeps, join_call-Keeps, leave_call-Keeps, start_recording-Keeps,
  stop_recording-Keeps, Keeps,
}

pub data Command : Type 0 where
  -- workspace, channel, user, mode
  initiates : ℕ → ℕ → ℕ → String → Command
  -- call, user
  joins : ℕ → ℕ → Command
  leaves : ℕ → ℕ → Command
  -- call, user, encoded metadata
  starts_recording : ℕ → ℕ → Option String → Command
  -- call, user, recording
  stops_recording : ℕ → ℕ → ℕ → Command

-- The database after a request.
unfoldable pub serve : Service → Command → Db → Db
serve s (initiates w ch u mode) d = (initiate_call s w ch u mode d).1
serve s (joins id u) d = (join_call s id u d).1
serve s (leaves id u) d = (leave_call s id u d).1
serve s (starts_recording id u o) d = (start_recording id u o d).1
serve s (stops_recording id u r) d = (stop_recording id u r d).1

-- Either a request is served, or something happens outside these tables: other tables change, the
-- clock advances, events are delivered, the server's next failures are decided.
pub data Step (s : Service) : Db → Db → Type 0 where
  serves : {d : Db} (c : Command) → Step s d (serve s c d)
  elsewhere : {d d' : Db} → d'.rooms ≡ d.rooms → Step s d d'

pub data Reach (s : Service) (d : Db) : Db → Type 0 where
  here : Reach s d d
  next : {d' d'' : Db} → Reach s d d' → Step s d' d'' → Reach s d d''

ended-Safe :
    {A : Type 0} (max : ℕ) (R0 : Rooms) (p : Result Error A × Db)
    → Post rooms (λ a T. Safe max R0 T) (λ e T. Safe max R0 T) p
    → Safe max R0 p.1.rooms
ended-Safe max R0 (ok a, d) h = h
ended-Safe max R0 (err e, d) h = h

module _ (s : Service) (law : IsLawful s) where
  run-Safe :
      {A : Type 0} (R0 : Rooms) (m : M A) (d : Db)
      → Keeps s.max_participants R0 d.rooms m
      → Safe s.max_participants R0 (m d).1.rooms
  run-Safe R0 m d keeps = ended-Safe s.max_participants R0 (m d) (keeps.run d refl)

  serve-Safe :
      (R0 : Rooms) (c : Command) (d : Db)
      → Safe s.max_participants R0 d.rooms
      → Safe s.max_participants R0 (serve s c d).rooms
  unfolding serve
  serve-Safe R0 (initiates w ch u mode) d h =
      run-Safe R0 _ d (initiate_call-Keeps s law R0 w ch u mode d.rooms h)
  serve-Safe R0 (joins id u) d h = run-Safe R0 _ d (join_call-Keeps s law R0 id u d.rooms h)
  serve-Safe R0 (leaves id u) d h = run-Safe R0 _ d (leave_call-Keeps s law R0 id u d.rooms h)
  serve-Safe R0 (starts_recording id u o) d h =
      run-Safe R0 _ d (start_recording-Keeps s.max_participants R0 id u o d.rooms h)
  serve-Safe R0 (stops_recording id u r) d h =
      run-Safe R0 _ d (stop_recording-Keeps s.max_participants R0 id u r d.rooms h)

  reached :
      {d d' : Db}
      → Reach s d d'
      → Inv s.max_participants d.rooms
      → Safe s.max_participants d.rooms d'.rooms
  reached {d} here v = Safe-refl s.max_participants d.rooms v
  reached {d} (next {d' = d1} r (serves c)) v = serve-Safe d.rooms c d1 (reached r v)
  reached {d} (next r (elsewhere same)) v = rw same (reached r v)

-- From tables that fit the invariant, every history of requests, served by a service whose
-- neighbours leave the tables of the calls alone, and whichever queries fail, ends in tables that fit
-- it too: call ids are given once, a call has an end time exactly when it has ended, a channel has one
-- live call at most, nobody is in an ended call, nobody is in a call twice, a call has one open
-- recording at most, and no call holds more than `max_participants` users where that limit is set. And
-- every call keeps its channel, workspace and mode, its status only moves from ringing to active to
-- ended, and once ended the row never changes.
pub Reach-Safe :
    (s : Service)
    → IsLawful s
    → {d d' : Db} → Reach s d d'
    → Inv s.max_participants d.rooms
    → Safe s.max_participants d.rooms d'.rooms
Reach-Safe s law r v = reached s law r v
