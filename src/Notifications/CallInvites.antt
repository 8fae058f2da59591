-- ===== src/Notifications/CallInvites.antt =====
-- An invitation to a call writes no table but that of the notifications, and makes no query fail.
use brenox_engine.Base.{ℕ, refl, Bool, true, false, String}
use brenox_engine.Db.{rooms}
use brenox_engine.Db.Org.{Notification}
use brenox_engine.Db.Triple.{Frame}
use brenox_engine.Db.Frame.{Frame-bind, Frame-pure, Frame-raise_if, Frame-write, Frame-send}
use brenox_engine.Db.Calm.{Steady}
use brenox_engine.Db.Steady.{Steady-pure, Steady-bind, Steady-raise_if, Steady-write, Steady-send}
use brenox_engine.Notifications.Service.{CreateInput, create, dispatch, deliver, notify_call_invite}

create-Frame : (rt : Bool) (i : CreateInput) → Frame rooms (create rt i)
unfolding create dispatch deliver
create-Frame rt i = Frame-bind _ _ (Frame-raise_if _ _) λ a.
    Frame-bind _ _ (Frame-write _ _ (λ v d. refl)) λ row.
      Frame-bind _ _
        (Frame-bind _ _ (delivered row rt)
          λ b. Frame-bind _ _ (Frame-send _ (λ ss d. refl)) λ c. Frame-send _ (λ ss d. refl))
        λ e. Frame-pure row
  where
    delivered : (row : Notification) (rt : Bool) → Frame rooms (deliver rt row)
    delivered row false = Frame-pure tt
    delivered row true = Frame-send _ (λ ss d. refl)

create-Steady : (rt : Bool) (i : CreateInput) → Steady (create rt i)
unfolding create dispatch deliver
create-Steady rt i = Steady-bind _ _ (Steady-raise_if _ _) λ a.
    Steady-bind _ _ (Steady-write _ _ (λ v d. refl)) λ row.
      Steady-bind _ _
        (Steady-bind _ _ (delivered row rt) λ b. Steady-bind _ _ (Steady-send _) λ c. Steady-send _)
        λ e. Steady-pure row
  where
    delivered : (row : Notification) (rt : Bool) → Steady (deliver rt row)
    delivered row false = Steady-pure tt
    delivered row true = Steady-send _

pub notify_call_invite-Frame :
    (rt : Bool) (w c id i t : ℕ) (n : String) → Frame rooms (notify_call_invite rt w c id i t n)
unfolding notify_call_invite
notify_call_invite-Frame rt w c id i t n = Frame-bind _ _ (create-Frame rt _) λ a. Frame-pure tt

pub notify_call_invite-Steady :
    (rt : Bool) (w c id i t : ℕ) (n : String) → Steady (notify_call_invite rt w c id i t n)
unfolding notify_call_invite
notify_call_invite-Steady rt w c id i t n = Steady-bind _ _ (create-Steady rt _) λ a. Steady-pure tt
