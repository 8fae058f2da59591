-- ===== src/Calls/Steady.antt =====
-- What the service's neighbours do while no query fails: they may refuse, but leave no failure due.
use brenox_engine.Calls.Service.{publish}
use brenox_engine.Base.{ℕ, String, Option, none, some}
use brenox_engine.Db.{Error, EventType, on_error}
use brenox_engine.Db.Rooms.{Rooms, Call, Mode, voice, video}
use brenox_engine.Db.Calm.{Calm, Calm-if, Calm-send, Calm-pure, Steady}
use brenox_engine.Db.Steady.{
  Steady-pure, Steady-bind, Steady-attempt, Steady-on_error, Steady-raise_if,
}
use brenox_engine.Calls.Interfaces.{
  CallBilling, InviteNotifier, Service, limit_with, participant_limit, assert_participant_capacity,
  check_video, map_access_err,
}

abbrev pub SteadyBilling : Option CallBilling → Type 0
SteadyBilling none = Unit
SteadyBilling (some b) =
    ((w : ℕ) → Steady (b.check_can_start_video_call w))
    × ((w : ℕ) → Steady (b.max_call_participants_for_workspace w))
    × ((w n : ℕ) → Steady (b.record_video_minutes_by_workspace_id w n))

abbrev pub SteadyInvites : Option InviteNotifier → Type 0
SteadyInvites none = Unit
SteadyInvites (some f) = (w c id i t : ℕ) (n : String) → Steady (f w c id i t n)

pub record IsSteady (s : Service) : Type 0 where
  pub billing_steady : SteadyBilling s.billing
  pub access_steady : (w c u : ℕ) → Steady (s.access w c u)
  pub invites_steady : SteadyInvites s.invites

-- No error ends the method.
abbrev pub Never : Error → Rooms → Type 0
Never e T = ⊥

limit_with-Steady :
    (b : Option CallBilling) → SteadyBilling b → (n w : ℕ) → Steady (limit_with b n w)
unfolding limit_with
limit_with-Steady none h n w = Steady-pure n
limit_with-Steady (some b) h n w = Steady-bind _ _ (Steady-attempt _ (h.1 w)) λ p. Steady-pure _

pub check_video-Steady :
    (b : Option CallBilling) → SteadyBilling b → (m : Mode) (w : ℕ) → Steady (check_video b m w)
unfolding check_video
check_video-Steady none h m w = Steady-pure tt
check_video-Steady (some b) h voice w = Steady-pure tt
check_video-Steady (some b) h video w = h.0 w

pub capacity-Steady :
    (s : Service) → IsSteady s → (w n : ℕ) → Steady (assert_participant_capacity s w n)
unfolding assert_participant_capacity participant_limit
capacity-Steady s h w n =
    Steady-bind _ _ (limit_with-Steady s.billing h.billing_steady s.max_participants w)
      λ limit. Steady-raise_if _ _

pub access-Steady :
    (s : Service) → IsSteady s → (w c u : ℕ) → Steady (on_error map_access_err (s.access w c u))
access-Steady s h w c u = Steady-on_error _ _ (h.access_steady w c u)

pub publish-Calm :
    {T : Rooms} {Q : Unit {0} → Rooms → Type 0} {R : Error → Rooms → Type 0}
    → Q tt T
    → (s : Service) (type : EventType) (c : Call) (u : ℕ) → Calm T (publish s type c u) Q R
unfolding publish
publish-Calm q s type c u =
    Calm-if s.has_broadcast _ _ (λ on. Calm-send _ q) (λ off. Calm-pure tt q)
