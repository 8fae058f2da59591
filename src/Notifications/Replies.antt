-- ===== src/Notifications/Replies.antt =====
-- The notification of the author of the message that a message replies to.
use brenox_engine.Base.{
  ℕ, ◌≡◌, refl, inl, Bool, true, false, not, ◌||◌, List, [], Option, none, some, String, ◌==◌,
  ==→eq, if◌then◌else◌,
}
use brenox_engine.Base.Monad.{pure, ◌>>=◌}
use brenox_engine.Db.{Error, org}
use brenox_engine.Db.Org.{Message, Org}
use brenox_engine.Db.Triple.{Triple, Triple-bind, Triple-pure}
use brenox_engine.Db.Reads.{Triple-optional_read, Triple-attempted}
use brenox_engine.Queries.Notices.{find_message}
use brenox_engine.Notifications.Mentions.{MentionLibrary}
use brenox_engine.Notifications.Service.{
  create, tell_parent, notify_reply, reply_first, reply_input, valid_type,
}
use brenox_engine.Notifications.Rows.{IsPart, create-Triple, grown, lost, nothing}

module _ (lib : MentionLibrary) (rt : Bool) (w ch sender : ℕ) (m : Message) (reply : Option ℕ)
    (sender_name : String) (all : List String) (T : Org) where
  abbrev Part : Org → Type 0
  Part = IsPart lib w ch sender reply all T

  tell_parent-Triple :
      (id : ℕ) (o : Option Message)
      → reply ≡ some id
      → find_message id T ≡ o
      → Triple org T
          (tell_parent rt w ch sender m id sender_name o)
          (λ x T'. Part T')
          (λ e T'. Part T')
  unfolding tell_parent valid_type
  tell_parent-Triple id none asked found = Triple-pure tt (lost T [] T (nothing T))
  tell_parent-Triple id (some p) asked found =
      settle (p.channel_id == ch) (p.sender_id == sender) refl refl
    where
      settle :
          (b c : Bool)
          → p.channel_id == ch ≡ b
          → p.sender_id == sender ≡ c
          → Triple org T
              (if not b || c
                then pure tt
                else create rt (reply_input w ch sender m id sender_name p.sender_id) >>= λ _.
                    pure tt)
              (λ x T'. Part T')
              (λ e T'. Part T')
      settle false c h k = Triple-pure tt (lost T [] T (nothing T))
      settle true true h k = Triple-pure tt (lost T [] T (nothing T))
      settle true false h k =
          create-Triple rt _ T refl
            (λ now. lost T _ _ (
              grown T (reply_input w ch sender m id sender_name p.sender_id) now [] T (nothing T) k
                (inl record {
                  parent = p;
                  id = id;
                  asked = asked;
                  found = found;
                  place = ==→eq p.channel_id ch h;
                  author = refl;
                  type_is = refl;
                })))
            (λ e. lost T [] T (nothing T))

  pub reply_first-Triple :
      (o : Option ℕ)
      → reply ≡ o
      → {R : Error → Org → Type 0}
      → Triple org T (reply_first rt w ch sender m o sender_name) (λ x T'. Part T') R
  unfolding reply_first notify_reply
  reply_first-Triple none asked = Triple-pure none (lost T [] T (nothing T))
  reply_first-Triple (some id) asked = Triple-attempted (
      Triple-bind (
        Triple-optional_read (find_message id) (λ o found. tell_parent-Triple id o asked found)
          (lost T [] T (nothing T))))
