-- ===== src/Authz/Matrix.antt =====
-- What the role matrix grants.
use text.Mathlib.TextEquality.{eq_iff}
use text.Mathlib.Text.{◌==◌ as str_eq}
use brenox_engine.Base.{
  ℕ, ◌≡◌, refl, ◌≤◌, Bool, true, false, ◌&&◌, none, some, arith, String, if◌then◌else◌, ltb, leb,
  ap, sym, ◌∙◌,
}
use brenox_engine.Authz.Permissions.{
  Role, owner, admin, moderator, member, unset, parse_role, role_text, can_assign_role,
}

-- The order of the roles: a higher rank may do more.
unfoldable pub rank : Role → ℕ
rank owner = 4
rank admin = 3
rank moderator = 2
rank member = 1
rank unset = 0

-- A role may grant another exactly when it is `admin` or above and the granted role is one of the
-- stored roles and ranks strictly below it. So nobody grants `owner`, or their own role.
pub can_assign_role-below :
    (actor target : Role)
    → can_assign_role actor target
      ≡ (leb 3 (rank actor) && (leb 1 (rank target) && ltb (rank target) (rank actor)))
unfolding can_assign_role rank
can_assign_role-below owner owner = refl
can_assign_role-below owner admin = refl
can_assign_role-below owner moderator = refl
can_assign_role-below owner member = refl
can_assign_role-below owner unset = refl
can_assign_role-below admin owner = refl
can_assign_role-below admin admin = refl
can_assign_role-below admin moderator = refl
can_assign_role-below admin member = refl
can_assign_role-below admin unset = refl
can_assign_role-below moderator owner = refl
can_assign_role-below moderator admin = refl
can_assign_role-below moderator moderator = refl
can_assign_role-below moderator member = refl
can_assign_role-below moderator unset = refl
can_assign_role-below member owner = refl
can_assign_role-below member admin = refl
can_assign_role-below member moderator = refl
can_assign_role-below member member = refl
can_assign_role-below member unset = refl
can_assign_role-below unset owner = refl
can_assign_role-below unset admin = refl
can_assign_role-below unset moderator = refl
can_assign_role-below unset member = refl
can_assign_role-below unset unset = refl

-- The role that a text is parsed to is printed back as that text.
pub role_text-parse_role : (raw : String) (r : Role) → parse_role raw ≡ some r → role_text r ≡ raw
unfolding parse_role
role_text-parse_role raw r h =
    first_text (str_eq raw "owner") (str_eq raw "admin") (str_eq raw "moderator")
      (str_eq raw "member") refl refl refl refl h
  where
    first_text :
        (o a m b : Bool)
        → str_eq raw "owner" ≡ o
        → str_eq raw "admin" ≡ a
        → str_eq raw "moderator" ≡ m
        → str_eq raw "member" ≡ b
        → (if o
            then some owner
            else if a
            then some admin
            else if m
            then some moderator
            else if b
            then some member
            else none)
          ≡ some r
        → role_text r ≡ raw
    first_text true a m b e1 e2 e3 e4 h =
        ap role_text {x = r} {y = owner} (cc) ∙ sym ((eq_iff raw "owner").0 e1)
    first_text false true m b e1 e2 e3 e4 h =
        ap role_text {x = r} {y = admin} (cc) ∙ sym ((eq_iff raw "admin").0 e2)
    first_text false false true b e1 e2 e3 e4 h =
        ap role_text {x = r} {y = moderator} (cc) ∙ sym ((eq_iff raw "moderator").0 e3)
    first_text false false false true e1 e2 e3 e4 h =
        ap role_text {x = r} {y = member} (cc) ∙ sym ((eq_iff raw "member").0 e4)
    first_text false false false false e1 e2 e3 e4 h = absurd cc

-- Each of the four stored roles is printed as a text that parses back to it.
pub parse_role-role_text : (r : Role) → 1 ≤ rank r → parse_role (role_text r) ≡ some r
unfolding parse_role rank
parse_role-role_text owner h = refl
parse_role-role_text admin h = refl
parse_role-role_text moderator h = refl
parse_role-role_text member h = refl
parse_role-role_text unset h = absurd (omega (arith, h))
