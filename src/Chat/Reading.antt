-- ===== src/Chat/Reading.antt =====
-- What a page of a channel's messages holds.
use brenox_engine.Base.{
  ℕ, zero, suc, ◌≤◌, ◌≡◌, refl, inl, inr, Bool-cases, false, List, [], ◌∷◌, Option, none, some,
  ◌==◌, leb, leb→le, leb→lt, ==→eq, arith, length, length-take, All, All-take, All-drop, take, drop,
  select_all,
}
use brenox_engine.Db.{org}
use brenox_engine.Db.Accounts.{ℤ, pos, negsuc}
use brenox_engine.Db.Org.{User, Message, Org}
use brenox_engine.Db.Triple.{Triple, Triple-bind, Triple-read_all}
use brenox_engine.Queries.Org.{
  ChannelMessage, joined, join_senders, insert_by_time, sort_by_time, channel_messages, find_user,
}
use brenox_engine.Chat.Service.{page_limit, page_offset, list_messages}
use brenox_engine.Chat.Rights.{HasAccess, access-Triple}

abbrev pub time : ChannelMessage → ℕ
time r = r.message.created_at

-- Oldest first.
abbrev pub InOrder : List ChannelMessage → Type 0
InOrder [] = Unit
InOrder (x ∷ xs) = All (λ y. time x ≤ time y) xs × InOrder xs

pub record Page (w c u : ℕ) (T : Org) (rows : List ChannelMessage) (T' : Org) : Type 0 where
  pub access : HasAccess w c u T
  pub short : length rows ≤ 100
  pub ordered : InOrder rows
  pub on_channel : All (λ r. r.message.channel_id ≡ c) rows
  pub tables : T' ≡ T

page_limit-le : (n : ℤ) → page_limit n ≤ 100
unfolding page_limit
page_limit-le (negsuc n) = omega arith
page_limit-le (pos n) = ground arith

module _ (P : ChannelMessage → Type 0) where
  insert-All :
      (r : ChannelMessage) (xs : List ChannelMessage) → P r → All P xs → All P (insert_by_time r xs)
  insert-All r [] p h = (p, tt)
  insert-All r (x ∷ xs) p (q, h) = elim (Bool-cases (leb (time x) (time r))) [
    | inl e ↦ rw e (q, insert-All r xs p h)
    | inr e ↦ rw e (p, (q, h))
  ]

  sort-All : (xs : List ChannelMessage) → All P xs → All P (sort_by_time xs)
  sort-All [] h = tt
  sort-All (x ∷ xs) (p, h) = insert-All x (sort_by_time xs) p (sort-All xs h)

All-le :
    (a b : ℕ) (xs : List ChannelMessage)
    → a ≤ b
    → All (λ y. b ≤ time y) xs
    → All (λ y. a ≤ time y) xs
All-le a b [] h k = tt
All-le a b (x ∷ xs) h (p, k) = (omega (arith, h, p), All-le a b xs h k)

insert-InOrder :
    (r : ChannelMessage) (xs : List ChannelMessage) → InOrder xs → InOrder (insert_by_time r xs)
insert-InOrder r [] h = (tt, tt)
insert-InOrder r (x ∷ xs) (low, h) = elim (Bool-cases (leb (time x) (time r))) [
  | inl e ↦ rw e (insert-All (λ y. time x ≤ time y) r xs (leb→le _ _ e) low, insert-InOrder r xs h)
  | inr e ↦ rw e ((below e, All-le _ _ xs (below e) low), (low, h))
]
  where
    below : leb (time x) (time r) ≡ false → time r ≤ time x
    below e = omega (arith, leb→lt _ _ e)

sort-InOrder : (xs : List ChannelMessage) → InOrder (sort_by_time xs)
sort-InOrder [] = tt
sort-InOrder (x ∷ xs) = insert-InOrder x (sort_by_time xs) (sort-InOrder xs)

take-InOrder : (n : ℕ) (xs : List ChannelMessage) → InOrder xs → InOrder (take n xs)
take-InOrder zero xs h = tt
take-InOrder (suc n) [] h = tt
take-InOrder (suc n) (x ∷ xs) (low, h) = (All-take _ n xs low, take-InOrder n xs h)

drop-InOrder : (n : ℕ) (xs : List ChannelMessage) → InOrder xs → InOrder (drop n xs)
drop-InOrder zero xs h = h
drop-InOrder (suc n) [] h = tt
drop-InOrder (suc n) (x ∷ xs) (low, h) = drop-InOrder n xs h

module _ (c : ℕ) (o : Org) where
  joined-All :
      (m : Message) (u : Option User) (rows : List ChannelMessage)
      → m.channel_id ≡ c
      → All (λ r. r.message.channel_id ≡ c) rows
      → All (λ r. r.message.channel_id ≡ c) (joined o m u rows)
  joined-All m none rows e h = h
  joined-All m (some u) rows e h = (e, h)

  join-All :
      (ms : List Message)
      → All
          (λ r. r.message.channel_id ≡ c)
          (join_senders o (select_all (λ m. m.channel_id == c) ms))
  join-All [] = tt
  join-All (m ∷ ms) = elim (Bool-cases (m.channel_id == c)) [
    | inl e ↦ rw e (joined-All m (find_user m.sender_id o) _ (==→eq _ _ e) (join-All ms))
    | inr e ↦ rw e (join-All ms)
  ]

-- A page that ListMessages returns, whatever limit and offset are asked for, has at most 100
-- messages, all of that channel and in order of time; the reader is a member of the workspace and of
-- the channel, which lies in it. The tables stay as they are, on errors too.
pub list_messages-Page :
    (w c u : ℕ) (limit offset : ℤ) (T : Org)
    → Triple org T
        (list_messages w c u limit offset)
        (λ rows T'. Page w c u T rows T')
        (λ e T'. T' ≡ T)
unfolding list_messages
list_messages-Page w c u limit offset T = Triple-bind (
    access-Triple w c u T
      (λ access.
        Triple-read_all (channel_messages c (page_limit limit) (page_offset offset))
          (record {
            access = access;
            short = omega (
              arith,
              length-take (page_limit limit) (drop (page_offset offset) sorted),
              page_limit-le limit,
            );
            ordered =
                take-InOrder _ _ (drop-InOrder (page_offset offset) sorted (sort-InOrder rows));
            on_channel =
                All-take _ (page_limit limit) _
                  (All-drop _ (page_offset offset) _ (sort-All _ rows (join-All c T T.messages)));
            tables = refl;
          })
          refl)
      (λ e. refl))
  where
    rows : List ChannelMessage
    rows = join_senders T (select_all (λ m. m.channel_id == c) T.messages)

    sorted : List ChannelMessage
    sorted = sort_by_time rows
