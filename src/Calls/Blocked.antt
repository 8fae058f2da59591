-- ===== src/Calls/Blocked.antt =====
-- A live call that nobody is in, which a request that failed half way can leave behind: LeaveCall marks
-- the participants as left before it ends the call, and InitiateCall writes the call before its first
-- participant.
use brenox_engine.Base.{
  ℕ, ◌≡◌, refl, ap, ◌∙◌, false, List, [], ◌∷◌, Option, none, some, String, arith, select_all,
  length, length-select_all, if◌then◌else◌,
}
use brenox_engine.Base.Monad.{pure, raise, ◌>>=◌}
use brenox_engine.Db.{rooms, calls, CallsError}
use brenox_engine.Db.Rooms.{Mode, Call, Participant, Rooms}
use brenox_engine.Db.Triple.{
  Triple, Triple-bind, Triple-pure, Triple-raise, Triple-frame, Triple-read_all,
}
use brenox_engine.Db.Reads.{Triple-optional_read}
use brenox_engine.Db.Frame.{Frame-or_raise}
use brenox_engine.Queries.Calls.{find_live, active_count, in_call}
use brenox_engine.Calls.Interfaces.{Service, IsLawful, CallResponse}
use brenox_engine.Calls.Service.{
  initiate_call, clear_existing, clear_stale_solo_call, is_alone, open_call, end_stale,
}
use brenox_engine.Calls.Frames.{Frame-check_video, Frame-access, Frame-capacity}

abbrev Opens : CallResponse → Rooms → Type 0
Opens r T' = ⊥

module _ (s : Service) (law : IsLawful s) (ch u : ℕ) (T : Rooms) where
  empty_call-kept :
      (w : ℕ) (mode : Mode) (c : Call) (o : Option Call)
      → find_live ch T ≡ some c
      → find_live ch T ≡ o
      → active_count c.id T ≡ 0
      → Triple rooms T
          (clear_existing s o u >>= λ x. open_call s w ch u mode)
          Opens
          (λ e T'. T' ≡ T)
  unfolding clear_existing clear_stale_solo_call is_alone
  empty_call-kept w mode c none live same nobody = absurd cc
  empty_call-kept w mode c (some c') live same nobody = Triple-bind (
      Triple-bind (
        Triple-bind (
          Triple-read_all (λ R. select_all (in_call c'.id) R.participants)
            (listed (select_all (in_call c'.id) T.participants) refl) refl)))
    where
      own : c' ≡ c
      own = cc

      empty : active_count c'.id T ≡ 0
      empty = ap (λ (x : Call). active_count x.id T) own ∙ nobody

      listed :
          (l : List Participant)
          → select_all (in_call c'.id) T.participants ≡ l
          → Triple rooms T
              (if is_alone u l then end_stale s c' u else pure false)
              (λ b T'.
                Triple rooms T'
                  (if b then pure tt else raise (calls CallsError.call_already_active))
                  (λ x T''. Triple rooms T'' (open_call s w ch u mode) Opens (λ e T'. T' ≡ T))
                  (λ e T'. T' ≡ T))
              (λ e T'. T' ≡ T)
      listed [] e = Triple-pure false (Triple-raise _ refl)
      listed (p ∷ l) e =
          absurd
            (omega (arith, ap length e, length-select_all (in_call c'.id) T.participants, empty))

pub record IsBlocked (channel : ℕ) (T : Rooms) : Type 0 where
  pub call : Call
  pub live : find_live channel T ≡ some call
  pub nobody : active_count call.id T ≡ 0

-- Where a channel's live call has nobody in it, no request opens a call in the channel: whoever asks,
-- whatever the mode, and whichever queries fail, InitiateCall is refused and changes no call, if the
-- service's neighbours leave the tables of the calls alone.
pub initiate_call-IsBlocked :
    (s : Service)
    → IsLawful s
    → (w ch u : ℕ) (text : String) (T : Rooms) → IsBlocked ch T
    → Triple rooms T (initiate_call s w ch u text) (λ r T'. ⊥) (λ e T'. T' ≡ T)
unfolding initiate_call
initiate_call-IsBlocked s law w ch u text T v = Triple-bind (
    Triple-frame (Frame-or_raise _ _)
      (λ mode. Triple-bind (
        Triple-frame (Frame-access s law w ch u)
          (λ x. Triple-bind (
            Triple-frame (Frame-check_video s law mode w)
              (λ y. Triple-bind (
                Triple-frame (Frame-capacity s law w 0)
                  (λ z. Triple-bind (
                    Triple-optional_read (find_live ch)
                      (λ o e. empty_call-kept s law ch u T w mode v.call o v.live e v.nobody) refl))
                  (λ e. refl)))
              (λ e. refl)))
          (λ e. refl)))
      (λ e. refl))
