-- ===== src/Notifications/Effects.antt =====
-- What a message that was created does to the notifications, whichever queries fail.
use text.Mathlib.Text.{◌==◌ as str_eq}
use text.Mathlib.TextEquality.{eq_iff}
use brenox_engine.Base.{
  ℕ, ◌≤◌, ◌≡◌, refl, inl, inr, Bool, true, false, List, [], ◌∷◌, Option, none, some, String, ◌==◌,
  ==-refl, Bool-cases, if◌then◌else◌, All, count, arith,
}
use brenox_engine.Base.Monad.{pure, ◌>>=◌}
use brenox_engine.Db.{org}
use brenox_engine.Db.Org.{WorkspaceMember, Message, Notification, Org}
use brenox_engine.Db.Triple.{Triple, Triple-bind, Triple-pure, Triple-weaken}
use brenox_engine.Db.Reads.{Triple-optional_read}
use brenox_engine.Queries.Notices.{find_member_by_username}
use brenox_engine.Notifications.Mentions.{MentionLibrary, parse_mentions, is_among}
use brenox_engine.Notifications.Service.{
  create, mention, mention_each, notify_mentions, handle_message_created, mention_input, valid_type,
}
use brenox_engine.Notifications.Rows.{
  is_mention_of, IsHandled, Notified, IsTold, IsPart, create-Triple, grown, lost,
}
use brenox_engine.Notifications.Replies.{reply_first-Triple}

among-weaken :
    (x : String) (xs names : List String)
    → All (λ y. is_among y xs ≡ true) names
    → All (λ y. is_among y (x ∷ xs) ≡ true) names
among-weaken x xs [] h = tt
among-weaken x xs (y ∷ names) (k, h) = (
  elim (Bool-cases (str_eq x y)) [ inl e ↦ rw e refl | inr e ↦ rw e k ],
  among-weaken x xs names h,
)

among-All : (xs : List String) → All (λ y. is_among y xs ≡ true) xs
among-All [] = tt
among-All (x ∷ xs) = (rw ((eq_iff x x).1 refl) refl, among-weaken x xs xs (among-All xs))

-- The members that the rest of the loop tells, beside those that were told before it.
record Looped (lib : MentionLibrary) (w ch sender : ℕ) (reply : Option ℕ) (all : List String)
    (T : Org) (before : List Notification) (names : List String) (T' : Org) : Type 0 where
  pub new : List Notification
  pub notified : Notified lib w ch sender reply all T new T'
  pub handled : All (IsHandled lib w sender T new) names
  pub more : (u : ℕ) → count (is_mention_of u) before ≤ count (is_mention_of u) new

IsHandled-more :
    (lib : MentionLibrary) (w sender : ℕ) (T : Org) (xs ys : List Notification) (name : String)
    → ((u : ℕ) → count (is_mention_of u) xs ≤ count (is_mention_of u) ys)
    → IsHandled lib w sender T xs name
    → IsHandled lib w sender T ys name
IsHandled-more lib w sender T xs ys name le (inl h) = inl h
IsHandled-more lib w sender T xs ys name le (inr (x, (found, inl own))) = inr (x, (found, inl own))
IsHandled-more lib w sender T xs ys name le (inr (x, (found, inr told))) =
    inr (x, (found, inr (omega (arith, le x.user_id, told))))

module _ (lib : MentionLibrary) (rt : Bool) (w ch sender : ℕ) (m : Message) (reply : Option ℕ)
    (sender_name : String) (all : List String) (T : Org) where
  abbrev Part : Org → Type 0
  Part = IsPart lib w ch sender reply all T

  abbrev Rest : List Notification → List String → Org → Type 0
  Rest = Looped lib w ch sender reply all T

  -- The first name is handled, and the loop goes on.
  joined :
      (xs ys : List Notification) (name : String) (names : List String) (T' : Org)
      → ((u : ℕ) → count (is_mention_of u) xs ≤ count (is_mention_of u) ys)
      → IsHandled lib w sender T ys name
      → Rest ys names T'
      → Rest xs (name ∷ names) T'
  joined xs ys name names T' le h v = record {
    new = v.new;
    notified = v.notified;
    handled = (IsHandled-more lib w sender T ys v.new name v.more h, v.handled);
    more = λ u. omega (arith, le u, v.more u);
  }

  mention_each-Triple :
      (names : List String) (new : List Notification) (T1 : Org)
      → Notified lib w ch sender reply all T new T1
      → All (λ x. is_among x all ≡ true) names
      → Triple org T1
          (mention_each lib rt w ch sender m sender_name names)
          (λ x T'. Rest new names T')
          (λ e T'. Part T')
  unfolding mention_each mention valid_type
  mention_each-Triple [] new T1 v tt =
      Triple-pure tt record { new = new; notified = v; handled = tt; more = λ u. omega arith }
  mention_each-Triple (name ∷ names) new T1 v (listed, others) = Triple-bind (
      Triple-optional_read (find_member_by_username lib.lower w name)
        (λ o found. Triple-bind (
          look o (rw v.tables at found) (λ ys T2 v2 le h.
            Triple-weaken _ _ _ _ (mention_each-Triple names ys T2 v2 others)
              (λ x T' k. joined new ys name names T' le h k) (λ e T' k. k))))
        (lost T new T1 v))
    where
      Next : Unit {0} → Org → Type 0
      Next x T2 =
          Triple org T2 (mention_each lib rt w ch sender m sender_name names)
            (λ x T'. Rest new (name ∷ names) T') (λ e T'. Part T')

      settle :
          (x : WorkspaceMember)
          → find_member_by_username lib.lower w name T ≡ some x
          → ((ys : List Notification) (T2 : Org)
              → Notified lib w ch sender reply all T ys T2
              → ((u : ℕ) → count (is_mention_of u) new ≤ count (is_mention_of u) ys)
              → IsHandled lib w sender T ys name
              → Next tt T2)
          → (b : Bool) → x.user_id == sender ≡ b
          → Triple org T1
              (if b
                then pure tt
                else create rt (mention_input w ch sender m sender_name x.user_id) >>= λ _. pure tt)
              Next
              (λ e T'. Part T')
      settle x found go true own =
          Triple-pure tt (go new T1 v (λ u. omega arith) (inr (x, (found, inl own))))
      settle x found go false other =
          create-Triple rt _ T1 refl
            (λ now.
              go _ _
                (grown T (mention_input w ch sender m sender_name x.user_id) now new T1 v other (
                  inr record {
                    name = name;
                    listed = listed;
                    row = x;
                    found = found;
                    named = refl;
                    type_is = refl;
                  }))
                (λ u. omega arith) (inr (x, (found, inr (rw (==-refl x.user_id) (omega arith))))))
            (λ e. lost T new T1 v)

      look :
          (o : Option WorkspaceMember)
          → find_member_by_username lib.lower w name T ≡ o
          → ((ys : List Notification) (T2 : Org)
              → Notified lib w ch sender reply all T ys T2
              → ((u : ℕ) → count (is_mention_of u) new ≤ count (is_mention_of u) ys)
              → IsHandled lib w sender T ys name
              → Next tt T2)
          → Triple org T1 (mention rt w ch sender m sender_name o) Next (λ e T'. Part T')
      look none found go = Triple-pure tt (go new T1 v (λ u. omega arith) (inl found))
      look (some x) found go = settle x found go (x.user_id == sender) refl

-- HandleMessageCreated adds notifications only, each unread and of somebody other than the sender:
-- the author of the message in this channel that the new one replies to, or a member of the workspace
-- who is named in it. If it passes, every name in the message is nobody's in the workspace, or the
-- sender's, or its user was notified of the mention. If it fails, what it had added stays.
pub handle_message_created-IsTold :
    (lib : MentionLibrary) (rt : Bool) (w ch sender : ℕ) (m : Message) (reply : Option ℕ)
    (sender_name : String) (T : Org)
    → Triple org T
        (handle_message_created lib rt w ch sender m reply sender_name)
        (λ x T'. IsTold lib w ch sender reply (parse_mentions lib m.content) T T')
        (λ e T'. IsPart lib w ch sender reply (parse_mentions lib m.content) T T')
unfolding handle_message_created notify_mentions
handle_message_created-IsTold lib rt w ch sender m reply sender_name T = Triple-bind (
    Triple-weaken _ _ _ _
      (reply_first-Triple lib rt w ch sender m reply sender_name (parse_mentions lib m.content) T
        reply refl)
      (λ x T1 p.
        Triple-weaken _ _ _ _
          (mention_each-Triple lib rt w ch sender m reply sender_name (parse_mentions lib m.content)
            T (parse_mentions lib m.content) p.new T1 p.notified
            (among-All (parse_mentions lib m.content)))
          (λ y T' k. record { new = k.new; notified = k.notified; handled = k.handled })
          (λ e T' k. k))
      (λ e T' k. k))
