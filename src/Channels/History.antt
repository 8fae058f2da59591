-- ===== src/Channels/History.antt =====
-- Channels and their members over a history of requests.
use text.Mathlib.Text.{◌==◌ as str_eq}
use text.Mathlib.TextEquality.{eq_iff}
use brenox_engine.Base.{
  ℕ, ◌≤◌, ◌≡◌, refl, sym, inl, inr, Bool, true, false, ◌&&◌, some, String, ◌==◌, is_some, count,
  select-count, count-delete-le, select-delete, select_one, count_under, arith, Bool-cases,
}
use brenox_engine.Base.Monad.{Result, ok, err}
use brenox_engine.Db.{Db, Error, M, org}
use brenox_engine.Db.Org.{Channel, ChannelMember, Org}
use brenox_engine.Db.Triple.{Triple, Post, Triple-weaken}
use brenox_engine.Queries.Org.{find_channel, find_channel_member, is_channel_membership, is_named}
use brenox_engine.Channels.Service.{create_channel, join_channel, leave_channel}
use brenox_engine.Channels.Effects.{Joined, Left, join_channel-Joined, leave_channel-Left}
use brenox_engine.Channels.Creation.{Opened, Created, create_channel-Created}

-- The ids of the channels are different and below the next one, the names in a workspace are
-- different, and a user has one row per channel at most.
pub record WellFormed (T : Org) : Type 0 where
  pub ids : (c : ℕ) → count (λ ch. ch.id == c) T.channels ≤ 1
  pub below : (c : ℕ) → T.next_channel ≤ c → count (λ ch. ch.id == c) T.channels ≡ 0
  pub names : (w : ℕ) (n : String) → count (is_named w n) T.channels ≤ 1
  pub one_row : (c u : ℕ) → count (is_channel_membership c u) T.channel_members ≤ 1

-- The channel stands as it is, and its owner is its member.
pub record Owned (c w : ℕ) (ch : Channel) (T : Org) : Type 0 where
  pub found : find_channel c w T ≡ some ch
  pub inside : is_some (find_channel_member c ch.owner_id T) ≡ true

pub record Kept (c w : ℕ) (ch : Channel) (T : Org) : Type 0 where
  pub rows : WellFormed T
  pub owned : Owned c w ch T

module _ (c0 w0 : ℕ) (ch0 : Channel) where
  Joined-Kept : (w c u : ℕ) (T T' : Org) → Kept c0 w0 ch0 T → Joined w c u T T' → Kept c0 w0 ch0 T'
  Joined-Kept w c u T T' v j = rw j.tables record {
    rows = record {
      ids = v.rows.ids;
      below = v.rows.below;
      names = v.rows.names;
      one_row = λ c' u'. ground (
        arith,
        v.rows.one_row c' u',
        select-count (is_channel_membership c u) T.channel_members j.absent,
      );
    };
    owned = record { found = v.owned.found; inside = ground (arith, v.owned.inside) };
  }

  Left-Kept : (w c u : ℕ) (T T' : Org) → Kept c0 w0 ch0 T → Left w c u T T' → Kept c0 w0 ch0 T'
  Left-Kept w c u T T' v l = rw l.tables record {
    rows = record {
      ids = v.rows.ids;
      below = v.rows.below;
      names = v.rows.names;
      one_row = λ c' u'. omega (
        arith,
        v.rows.one_row c' u',
        count-delete-le (is_channel_membership c' u') (is_channel_membership c u) T.channel_members,
      );
    };
    owned = record {
      found = v.owned.found;
      inside =
          rw
            (select-delete (is_channel_membership c0 ch0.owner_id) (is_channel_membership c u)
              T.channel_members other)
            v.owned.inside;
    };
  }
    where
      -- A row of the owner's is not the one that goes.
      same_channel : c ≡ c0 → l.visit.place ≡ ch0
      same_channel e =
          select_one (λ ch. ch.id == c0) (λ ch. ch.workspace_id == w) (λ ch. ch.workspace_id == w0)
            T.channels (v.rows.ids c0) (rw e at l.visit.found) v.owned.found

      other :
          (m : ChannelMember)
          → is_channel_membership c0 ch0.owner_id m ≡ true
          → is_channel_membership c u m ≡ false
      other m h = elim (Bool-cases (is_channel_membership c u m)) [
        | inr e ↦ e
        | inl e ↦
            let at_c : c ≡ c0 = ground arith in
            let at_u : u ≡ ch0.owner_id = ground arith in
            let mine : ch0.owner_id == u ≡ false = rw (same_channel at_c) at l.not_owner in
            absurd (ground arith)
      ]

  Opened-Kept :
      (w u : ℕ) (n : String) (ro : Bool) (T T' : Org)
      → Kept c0 w0 ch0 T
      → Opened w u n ro T T'
      → Kept c0 w0 ch0 T'
  Opened-Kept w u n ro T T' v o = rw o.tables record {
    rows = record {
      ids = λ c. ground (arith, v.rows.ids c, v.rows.below c);
      below = λ c h. ground (arith, v.rows.below c);
      names = λ w' n'. ground (arith, v.rows.names w' n', taken w' n');
      one_row = v.rows.one_row;
    };
    owned = record {
      found = ground (
        arith,
        v.owned.found,
        v.rows.below c0,
        count_under (λ ch. ch.id == c0) (λ ch. ch.workspace_id == w0) T.channels {a = ch0},
      );
      inside = v.owned.inside;
    };
  }
    where
      taken :
          (w' : ℕ) (n' : String)
          → w == w' && str_eq n n' ≡ true
          → count (is_named w' n') T.channels ≡ 0
      taken w' n' h =
          let same_place : w ≡ w' = ground arith in
          let same_name : n ≡ n' = (eq_iff n n').0 (ground arith) in
          rw (sym same_place, sym same_name) (select-count (is_named w n) T.channels o.fresh)

  Created-Kept :
      (w u : ℕ) (n : String) (ro : Bool) (T T' : Org)
      → Kept c0 w0 ch0 T
      → Created w u n ro T T'
      → Kept c0 w0 ch0 T'
  Created-Kept w u n ro T T' v k = rw k.tables record {
    rows = record {
      ids = mid.rows.ids;
      below = mid.rows.below;
      names = mid.rows.names;
      one_row = λ c' u'. ground (
        arith,
        mid.rows.one_row c' u',
        select-count (is_channel_membership T.next_channel u) k.middle.channel_members k.absent,
      );
    };
    owned = record { found = mid.owned.found; inside = ground (arith, mid.owned.inside) };
  }
    where
      mid : Kept c0 w0 ch0 k.middle
      mid = Opened-Kept w u n ro T k.middle v k.opened

after :
    {A : Type 0} (K : Org → Type 0) (p : Result Error A × Db)
    → Post org (λ x T'. K T') (λ e T'. K T') p
    → K p.1.org
after K (ok x, d) h = h
after K (err e, d) h = h

pub data Request : Type 0 where
  -- workspace, user, name, read-only
  opens : ℕ → ℕ → String → Bool → Request
  -- workspace, channel, user
  joins : ℕ → ℕ → ℕ → Request
  leaves : ℕ → ℕ → ℕ → Request

-- The database after a request.
unfoldable pub handle : Request → Db → Db
handle (opens w u n ro) d = (create_channel w u n ro d).1
handle (joins w c u) d = (join_channel w c u d).1
handle (leaves w c u) d = (leave_channel w c u d).1

-- Either a request on channels is served, or something happens outside the tables of channels.
pub data ChannelStep : Db → Db → Type 0 where
  handles : {d : Db} (r : Request) → ChannelStep d (handle r d)
  elsewhere :
      {d d' : Db}
      → d'.org.channels ≡ d.org.channels
      → d'.org.next_channel ≡ d.org.next_channel
      → d'.org.channel_members ≡ d.org.channel_members
      → ChannelStep d d'

pub data ChannelReach (d : Db) : Db → Type 0 where
  here : ChannelReach d d
  next : {d' d'' : Db} → ChannelReach d d' → ChannelStep d' d'' → ChannelReach d d''

module _ (c0 w0 : ℕ) (ch0 : Channel) where
  kept :
      {A : Type 0} {m : M A} {Q : A → Org → Type 0} {R : Error → Org → Type 0} (d : Db)
      → Triple org d.org m Q R
      → ((x : A) (T' : Org) → Q x T' → Kept c0 w0 ch0 T')
      → ((e : Error) (T' : Org) → R e T' → Kept c0 w0 ch0 T')
      → Kept c0 w0 ch0 (m d).1.org
  kept {m} {Q} {R} d h q r = after (Kept c0 w0 ch0) (m d) ((Triple-weaken Q _ R _ h q r).run d refl)

  handle-Kept : (r : Request) (d : Db) → Kept c0 w0 ch0 d.org → Kept c0 w0 ch0 (handle r d).org
  unfolding handle
  handle-Kept (opens w u n ro) d v =
      kept d (create_channel-Created w u n ro d.org)
        (λ x T' done. Created-Kept c0 w0 ch0 w u n ro d.org T' v done)
        (λ e T' k. elim k [
          | inl same ↦ rw same v
          | inr half ↦ Opened-Kept c0 w0 ch0 w u n ro d.org T' v half
        ])
  handle-Kept (joins w c u) d v =
      kept d (join_channel-Joined w c u d.org)
        (λ x T' done. Joined-Kept c0 w0 ch0 w c u d.org T' v done) (λ e T' same. rw same v)
  handle-Kept (leaves w c u) d v =
      kept d (leave_channel-Left w c u d.org)
        (λ x T' done. Left-Kept c0 w0 ch0 w c u d.org T' v done) (λ e T' same. rw same v)

-- Over any history of requests on channels, whichever queries fail: a channel stays as it is, and
-- its owner stays its member, if the owner was one at first; the ids of the channels stay different
-- and below the next one, their names in a workspace stay different, and a user keeps one row per
-- channel at most, if all that held at first.
pub ChannelReach-Kept :
    (c w : ℕ) (ch : Channel) {d d' : Db}
    → ChannelReach d d'
    → WellFormed d.org
    → Owned c w ch d.org
    → Kept c w ch d'.org
ChannelReach-Kept c w ch here rows owned = record { rows = rows; owned = owned }
ChannelReach-Kept c w ch (next {d' = d1} r (handles q)) rows owned =
    handle-Kept c w ch q d1 (ChannelReach-Kept c w ch r rows owned)
ChannelReach-Kept c w ch (next {d' = d1} {d'' = d2} r (elsewhere a b e)) rows owned =
    let v = ChannelReach-Kept c w ch r rows owned in
    record {
      rows = record {
        ids = rw a v.rows.ids;
        below = rw (a, b) v.rows.below;
        names = rw a v.rows.names;
        one_row = rw e v.rows.one_row;
      };
      owned = record { found = rw a v.owned.found; inside = rw e v.owned.inside };
    }
