-- ===== src/Notifications/Rows.antt =====
-- The rows that a message adds to the notifications, and what each stands for.
use text.Mathlib.Text.{◌==◌ as str_eq}
use brenox_engine.Base.{
  ℕ, ◌+◌, ◌≤◌, ◌≡◌, refl, ◌⊎◌, Bool, true, false, ◌&&◌, List, [], ◌∷◌, ◌++◌, Option, none, some,
  String, ◌==◌, All, count, length, arith,
}
use brenox_engine.Base.Monad.{pure, ◌>>=◌}
use brenox_engine.Db.{Error, org}
use brenox_engine.Db.Org.{WorkspaceMember, Message, Notification, Org}
use brenox_engine.Db.Triple.{Triple, Triple-bind, Triple-pure, Triple-write, Triple-raise_if}
use brenox_engine.Db.Reads.{Triple-send}
use brenox_engine.Queries.Notices.{
  find_message, find_member_by_username, insert_notification, new_notification,
}
use brenox_engine.Notifications.Mentions.{MentionLibrary, is_among}
use brenox_engine.Notifications.Service.{
  CreateInput, create, dispatch, deliver, valid_type, stored_data,
}

-- The author of the message that this one replies to, which stands in the same channel.
pub record Replied (channel : ℕ) (reply : Option ℕ) (T : Org) (n : Notification) : Type 0 where
  pub parent : Message
  pub id : ℕ
  pub asked : reply ≡ some id
  pub found : find_message id T ≡ some parent
  pub place : parent.channel_id ≡ channel
  pub author : n.user_id ≡ parent.sender_id
  pub type_is : n.type ≡ "reply"

-- A member of the workspace, found by a name.
pub record Mentioned (lib : MentionLibrary) (workspace : ℕ) (all : List String) (T : Org)
    (n : Notification) : Type 0 where
  pub name : String
  pub listed : is_among name all ≡ true
  pub row : WorkspaceMember
  pub found : find_member_by_username lib.lower workspace name T ≡ some row
  pub named : n.user_id ≡ row.user_id
  pub type_is : n.type ≡ "mention"

pub record IsDue (lib : MentionLibrary) (w ch sender : ℕ) (reply : Option ℕ) (all : List String)
    (T : Org) (n : Notification) : Type 0 where
  pub other : n.user_id == sender ≡ false
  pub unread : n.read_at ≡ none
  pub cause : Replied ch reply T n ⊎ Mentioned lib w all T n

abbrev pub is_mention_of : ℕ → Notification → Bool
is_mention_of user n = n.user_id == user && str_eq n.type "mention"

-- The name is nobody's in the workspace, or it is the sender's, or its user has been told.
abbrev pub IsHandled : MentionLibrary → ℕ → ℕ → Org → List Notification → String → Type 0
IsHandled lib w sender T new name =
    (find_member_by_username lib.lower w name T ≡ none)
    ⊎ ((x : WorkspaceMember) × ((find_member_by_username lib.lower w name T ≡ some x)
          × ((x.user_id == sender ≡ true) ⊎ (1 ≤ count (is_mention_of x.user_id) new))))

abbrev pub after : Org → List Notification → ℕ → Org
after T new next = record T { notifications = new ++ T.notifications; next_notification = next }

-- Rows were added, each of them due.
pub record Notified (lib : MentionLibrary) (w ch sender : ℕ) (reply : Option ℕ) (all : List String)
    (T : Org) (new : List Notification) (T' : Org) : Type 0 where
  pub next : ℕ
  pub numbered : next ≡ T.next_notification + length new
  pub due : All (IsDue lib w ch sender reply all T) new
  pub tables : T' ≡ after T new next

-- Rows were added, and every mention has been handled.
pub record IsTold (lib : MentionLibrary) (w ch sender : ℕ) (reply : Option ℕ) (all : List String)
    (T : Org) (T' : Org) : Type 0 where
  pub new : List Notification
  pub notified : Notified lib w ch sender reply all T new T'
  pub handled : All (IsHandled lib w sender T new) all

pub record IsPart (lib : MentionLibrary) (w ch sender : ℕ) (reply : Option ℕ) (all : List String)
    (T : Org) (T' : Org) : Type 0 where
  pub new : List Notification
  pub notified : Notified lib w ch sender reply all T new T'

module _ (rt : Bool) (row : Notification) (T : Org) {Q : Unit {0} → Org → Type 0}
    {R : Error → Org → Type 0} where
  dispatch-Triple : Q tt T → Triple org T (dispatch rt row) Q R
  unfolding dispatch deliver
  dispatch-Triple q =
      Triple-bind
        (delivered rt (Triple-bind (Triple-send _ (λ ss d. refl) (Triple-send _ (λ ss d. refl) q))))
    where
      delivered :
          {Q' : Unit {0} → Org → Type 0} (b : Bool) → Q' tt T → Triple org T (deliver b row) Q' R
      delivered false q = Triple-pure tt q
      delivered true q = Triple-send _ (λ ss d. refl) q

-- The row that an input asks for.
abbrev pub row_of : CreateInput → ℕ → Org → Notification
row_of i now T = new_notification i.user_id i.type i.title i.body (stored_data i.payload) now T

abbrev pub with_row : CreateInput → ℕ → Org → Org
with_row i now T = record T {
  notifications = row_of i now T ∷ T.notifications;
  next_notification = T.next_notification + 1;
}

pub create-Triple :
    (rt : Bool) (i : CreateInput) (T : Org) {R : Error → Org → Type 0}
    → {Q : Unit {0} → Org → Type 0} → valid_type i.type ≡ true
    → ((now : ℕ) → Q tt (with_row i now T))
    → ((e : Error) → R e T)
    → Triple org T (create rt i >>= λ _. pure tt) Q R
unfolding create
create-Triple rt i T valid q r = Triple-bind (
    Triple-bind (
      Triple-raise_if _ _
        (λ _. Triple-bind (
          Triple-write (insert_notification i.user_id i.type i.title i.body (stored_data i.payload))
            (λ now. Triple-bind (dispatch-Triple rt _ _ (Triple-pure _ (Triple-pure tt (q now)))))
            (r _)))
        (λ bad. r _)))

module _ {lib : MentionLibrary} {w ch sender : ℕ} {reply : Option ℕ} {all : List String}
    (T : Org) where
  -- One more row that is due.
  pub grown :
      (i : CreateInput) (now : ℕ) (new : List Notification) (T1 : Org)
      → Notified lib w ch sender reply all T new T1
      → (i.user_id == sender ≡ false)
      → (Replied ch reply T (row_of i now T1) ⊎ Mentioned lib w all T (row_of i now T1))
      → Notified lib w ch sender reply all T (row_of i now T1 ∷ new) (with_row i now T1)
  grown i now new T1 v other cause = record {
    next = v.next + 1;
    numbered = omega (arith, v.numbered);
    due = (record { other = other; unread = refl; cause = cause }, v.due);
    tables = rw v.tables refl;
  }

  -- A failure leaves what was added before it.
  pub lost :
      (new : List Notification) (T1 : Org)
      → Notified lib w ch sender reply all T new T1
      → IsPart lib w ch sender reply all T T1
  lost new T1 v = record { new = new; notified = v }

  pub nothing : Notified lib w ch sender reply all T [] T
  nothing = record { next = T.next_notification; numbered = omega arith; due = tt; tables = refl }
