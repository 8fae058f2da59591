-- ===== src/Authz/Permissions.antt =====
-- internal/authz/permissions.go. A Go `Role` is a string; the values that occur are the four
-- constants and the zero value "", here `unset`.
use text.Mathlib.Text.{◌==◌ as str_eq}
use brenox_engine.Base.{
  ℕ, Bool, true, false, ◌||◌, List, [], ◌∷◌, Option, none, some, String, if◌then◌else◌,
}

pub data Role : Type 0 where
  owner admin moderator member unset : Role

-- `other` is any other string.
pub data AuthzAction : Type 0 where
  create_channel invite_member remove_member change_member_role send_message other : AuthzAction

pub record Options : Type 0 where
  pub read_only_channel : Bool
  pub channel_role : Role
  pub channel_id_value : ℕ

abbrev pub no_options : Options
no_options = record { read_only_channel = false; channel_role = unset; channel_id_value = 0 }

abbrev pub role_text : Role → String
role_text owner = "owner"
role_text admin = "admin"
role_text moderator = "moderator"
role_text member = "member"
role_text unset = ""

abbrev pub same_role : Role → Role → Bool
same_role a b = str_eq (role_text a) (role_text b)

abbrev pub is_manager : Role → Bool
is_manager r = same_role r owner || same_role r admin

abbrev pub is_elevated : Role → Bool
is_elevated r = same_role r owner || (same_role r admin || same_role r moderator)

unfoldable pub allowed : Role → AuthzAction → Options → Bool
allowed role create_channel opts = is_elevated role
allowed role invite_member opts = is_manager role
allowed role remove_member opts = is_manager role
allowed role change_member_role opts = is_manager role
allowed role send_message opts =
    if opts.read_only_channel
    then (if is_elevated role then true else same_role opts.channel_role moderator)
    else true
allowed role other opts = false

unfoldable pub parse_role : String → Option Role
parse_role raw =
    if str_eq raw "owner"
    then some owner
    else if str_eq raw "admin"
    then some admin
    else if str_eq raw "moderator"
    then some moderator
    else if str_eq raw "member"
    then some member
    else none

unfoldable pub assignable_roles : Role → List Role
assignable_roles owner = admin ∷ moderator ∷ member ∷ []
assignable_roles admin = moderator ∷ member ∷ []
assignable_roles moderator = []
assignable_roles member = []
assignable_roles unset = []

unfoldable pub is_listed : Role → List Role → Bool
is_listed target [] = false
is_listed target (r ∷ rs) = if same_role r target then true else is_listed target rs

unfoldable pub can_assign_role : Role → Role → Bool
unfolding assignable_roles is_listed
can_assign_role actor target = is_listed target (assignable_roles actor)
