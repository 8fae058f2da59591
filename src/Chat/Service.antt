-- ===== src/Chat/Service.antt =====
-- internal/chat/service.go, types.go, access.go and notifier.go.
use text.Mathlib.Text.{◌==◌ as str_eq}
use brenox_engine.Base.{
  ℕ, Bool, true, false, not, ◌&&◌, List, [], ◌∷◌, Option, none, some, String, ltb, leb,
  if◌then◌else◌,
}
use brenox_engine.Base.Monad.{pure, ◌>>=◌, ◌>>◌}
use brenox_engine.Db.{
  Error, chat, ChatError, authz, AuthzError, M, no_rows_is, on_error, raise_if, attempt, send,
  message_new,
}
use brenox_engine.Db.Accounts.{ℤ, pos, negsuc}
use brenox_engine.Db.Org.{User, Message}
use brenox_engine.Queries.Org.{
  is_workspace_member, get_channel_in_workspace, is_channel_member, create_message, get_user_by_id,
  ChannelMessage, get_channel_messages,
}
use brenox_engine.Strings.{Strings}
use brenox_engine.Authz.Permissions.{send_message as sending}
use brenox_engine.Authz.Service.{can, message_options}

pub record MessageBilling : Type 0 where
  pub check_message_quota_by_workspace : ℕ → M (Unit {0})
  pub record_message_by_workspace_id : ℕ → M (Unit {0})

pub record AttachmentInput : Type 0 where
  pub object_key : String
  pub file_name : String
  pub mime_type : String
  pub size_bytes : ℕ

-- AttachOnMessageCreate: workspace, channel, message, user, inputs
abbrev pub AttachmentAttacher : Type 0
AttachmentAttacher = ℕ → ℕ → Message → ℕ → List AttachmentInput → M (Unit {0})

-- HandleMessageCreated: workspace, channel, sender, message, the message that it replies to, sender's
-- name
abbrev pub Notifier : Type 0
Notifier = ℕ → ℕ → ℕ → Message → Option ℕ → String → M (Unit {0})

-- Each field is nil until its setter is called.
pub record Service : Type 0 where
  pub notifier : Option Notifier
  pub attacher : Option AttachmentAttacher
  pub billing : Option MessageBilling
  pub has_broadcaster : Bool

abbrev pub max_message_length : ℕ
max_message_length = 4000

abbrev pub default_message_limit : ℕ
default_message_limit = 50

abbrev pub max_message_limit : ℕ
max_message_limit = 100

unfoldable pub normalize_content : Strings → String → Bool → M String
normalize_content lib content allow_empty = do
  raise_if (str_eq (lib.trim_space content) "" && not allow_empty) (chat ChatError.empty_content)
  raise_if (ltb max_message_length (lib.byte_length (lib.trim_space content)))
      (chat ChatError.message_too_long)
  pure (lib.trim_space content)

unfoldable pub assert_channel_access : ℕ → ℕ → ℕ → M (Unit {0})
assert_channel_access workspace channel user = do
  in_workspace ← is_workspace_member workspace user
  raise_if (not in_workspace) (chat ChatError.not_workspace_member)
  no_rows_is (chat ChatError.channel_not_found) (get_channel_in_workspace channel workspace)
  in_channel ← is_channel_member channel user
  raise_if (not in_channel) (chat ChatError.not_member)

unfoldable pub map_authz_error : Error → Error
map_authz_error (authz AuthzError.forbidden) = chat ChatError.forbidden
map_authz_error e = e

unfoldable pub check_quota : Option MessageBilling → ℕ → M (Unit {0})
check_quota none workspace = pure tt
check_quota (some b) workspace = b.check_message_quota_by_workspace workspace

unfoldable pub record_message : Option MessageBilling → ℕ → M (Option (Unit {0}))
record_message none workspace = pure none
record_message (some b) workspace = attempt (b.record_message_by_workspace_id workspace)

unfoldable pub broadcast : Bool → ℕ → ℕ → Message → M (Unit {0})
broadcast false workspace channel m = pure tt
broadcast true workspace channel m = send (message_new workspace channel m)

unfoldable pub notify_as :
    Notifier → ℕ → ℕ → ℕ → Message → Option ℕ → Option User → M (Option (Unit {0}))
notify_as f workspace channel sender m reply none = pure none
notify_as f workspace channel sender m reply (some u) =
    attempt (f workspace channel sender m reply u.username)

unfoldable pub notify : Option Notifier → ℕ → ℕ → ℕ → Message → Option ℕ → M (Option (Unit {0}))
notify none workspace channel sender m reply = pure none
notify (some f) workspace channel sender m reply =
    attempt (get_user_by_id sender) >>= λ u. notify_as f workspace channel sender m reply u

unfoldable pub attach :
    Option AttachmentAttacher → ℕ → ℕ → Message → ℕ → List AttachmentInput → M (Option (Unit {0}))
attach none workspace channel m sender attachments = pure none
attach (some f) workspace channel m sender [] = pure none
attach (some f) workspace channel m sender (x ∷ xs) =
    attempt (f workspace channel m sender (x ∷ xs))

abbrev pub is_present : List AttachmentInput → Bool
is_present [] = false
is_present (x ∷ xs) = true

unfoldable pub save_message : ℕ → ℕ → String → M Message
save_message channel sender content = create_message channel sender content

-- What follows once the message is saved.
unfoldable pub announce :
    Service → ℕ → ℕ → ℕ → Option ℕ → List AttachmentInput → Message → M Message
announce s workspace channel sender reply attachments m = do
  record_message s.billing workspace
  broadcast s.has_broadcaster workspace channel m
  notify s.notifier workspace channel sender m reply
  attach s.attacher workspace channel m sender attachments
  pure m

unfoldable pub send_message :
    Strings → Service → ℕ → ℕ → ℕ → String → Option ℕ → List AttachmentInput → M Message
send_message lib s workspace channel sender content reply attachments = do
  normalized ← normalize_content lib content (is_present attachments)
  assert_channel_access workspace channel sender
  place ← no_rows_is (chat ChatError.channel_not_found) (get_channel_in_workspace channel workspace)
  on_error map_authz_error
      (can workspace sender sending (message_options channel place.is_read_only))
  check_quota s.billing workspace
  m ← save_message channel sender normalized
  announce s workspace channel sender reply attachments m

unfoldable pub page_limit : ℤ → ℕ
page_limit (negsuc n) = default_message_limit
page_limit (pos n) =
    if leb n 0
    then default_message_limit
    else if ltb max_message_limit n
    then max_message_limit
    else n

unfoldable pub page_offset : ℤ → ℕ
page_offset (negsuc n) = 0
page_offset (pos n) = n

unfoldable pub list_messages : ℕ → ℕ → ℕ → ℤ → ℤ → M (List ChannelMessage)
list_messages workspace channel user limit offset = do
  assert_channel_access workspace channel user
  get_channel_messages channel (page_limit limit) (page_offset offset)
