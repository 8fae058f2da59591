-- ===== src/Db/Errors.antt =====
-- The sentinel errors of the packages, and those of the database driver.

pub data AuthzError : Type 0 where
  forbidden : AuthzError

pub data CallsError : Type 0 where
  not_found not_member not_participant call_ended call_already_active call_full channel_not_found :
      CallsError
  recording_active recording_not_found invalid_mode : CallsError

pub data ChannelsError : Type 0 where
  channel_not_found already_member not_member owner_cannot_leave not_workspace_member :
      ChannelsError
  duplicate_channel_name forbidden : ChannelsError

pub data WorkspacesError : Type 0 where
  not_found not_member slug_taken invalid_slug forbidden invalid_role : WorkspacesError
  cannot_modify_owner user_not_found already_member email_required name_required : WorkspacesError

pub data ChatError : Type 0 where
  not_member not_workspace_member channel_not_found forbidden empty_content message_too_long :
      ChatError

pub data BillingError : Type 0 where
  not_found invalid_plan message_limit subscription_inactive webhooks_not_allowed : BillingError
  video_not_allowed video_minutes_limit app_limit invalid_request plan_in_use : BillingError
  slug_taken invalid_slug forbidden stripe_not_configured plan_stripe_price_missing : BillingError

pub data NotificationsError : Type 0 where
  not_found invalid_type : NotificationsError

-- `no_rows` is pgx.ErrNoRows, `unique_violation` PostgreSQL's code 23505, and `database_failed` any
-- other failure of a query, a foreign key that points nowhere included.
pub data Error : Type 0 where
  no_rows unique_violation database_failed encoding_failed : Error
  authz : AuthzError → Error
  calls : CallsError → Error
  channels : ChannelsError → Error
  workspaces : WorkspacesError → Error
  chat : ChatError → Error
  billing : BillingError → Error
  notifications : NotificationsError → Error
