-- ===== src/Presence/Entries.antt =====
-- The entry of a user in the store, before and after a connection.
use brenox_engine.Base.{
  ℕ, ◌+◌, ◌-◌, ◌≤◌, ◌≡◌, refl, sym, inl, inr, Bool, true, false, [], ◌∷◌, Option, none, some, ◌==◌,
  leb, ltb, if◌then◌else◌, Bool-cases, is_some, arith, ==→eq, ==-refl, leb→le, ltb→lt,
}
use brenox_engine.Base.Map.{
  Map, value_or, get, put, remove, get-put, get-remove, value-put, value-remove,
}
use brenox_engine.Presence.Store.{
  MemoryUser, count_in, channels_in, attached, detached, lowered, lower_channels, store_channels,
  is_empty,
}

-- A channel has an entry exactly while its count is positive.
pub record IsCounting (chs : Map ℕ) : Type 0 where
  pub run : (c : ℕ) → is_some (get c chs) ≡ ltb 0 (count_in c chs)

pub count_in-put :
    (j c v : ℕ) (m : Map ℕ) → count_in j (put c v m) ≡ (if c == j then v else count_in j m)
unfolding count_in
count_in-put j c v m = value-put 0 j c v m

pub count_in-lowered :
    (j c : ℕ) (m : Map ℕ)
    → count_in j (lowered c m) ≡ (if c == j then count_in j m - 1 else count_in j m)
unfolding lowered count_in
count_in-lowered j c m = elim (Bool-cases (leb (count_in c m) 1)) [
  | inl low ↦
      rw (low, value-remove)
        (elim (Bool-cases (c == j)) [
          | inl e ↦ rw e (omega (arith, leb→le (value_or 0 (get j m)) 1 (rw (==→eq c j e) at low)))
          | inr e ↦ rw e refl
        ])
  | inr high ↦
      rw (high, value-put)
        (elim (Bool-cases (c == j)) [ inl e ↦ rw (e, ==→eq c j e) refl | inr e ↦ rw e refl ])
]

pub put-IsCounting : (c v : ℕ) (m : Map ℕ) → IsCounting m → IsCounting (put c (v + 1) m)
unfolding count_in
put-IsCounting c v m h = record { run = λ j. rw get-put (ground (arith, h.run j)) }

pub lowered-IsCounting : (c : ℕ) (m : Map ℕ) → IsCounting m → IsCounting (lowered c m)
unfolding lowered count_in
lowered-IsCounting c m h = elim (Bool-cases (leb (count_in c m) 1)) [
  | inl low ↦ rw low (record { run = λ j. rw get-remove (ground (arith, h.run j)) })
  | inr high ↦ rw high (record { run = λ j. rw get-put (ground (arith, h.run j)) })
]

-- A map of counts is empty exactly if every count is 0.
pub empty-count : (c : ℕ) (m : Map ℕ) → is_empty m ≡ true → count_in c m ≡ 0
unfolding is_empty count_in get
empty-count c [] h = refl
empty-count c (x ∷ xs) h = absurd cc

pub filled-count : (m : Map ℕ) → IsCounting m → is_empty m ≡ false → (c : ℕ) × (1 ≤ count_in c m)
unfolding is_empty get
filled-count [] h e = absurd cc
filled-count ((c, n) ∷ xs) h e =
    (c, ltb→lt 0 (count_in c ((c, n) ∷ xs)) (sym (rw (==-refl c) at (h.run c))))

is_empty→eq : (m : Map ℕ) → is_empty m ≡ true → m ≡ []
unfolding is_empty
is_empty→eq [] h = refl
is_empty→eq (x ∷ xs) h = absurd cc

pub channels_in-attached :
    (now w c w' : ℕ) (x : MemoryUser)
    → channels_in w' (attached now w c x) ≡ (
        if w == w'
        then put c (count_in c (channels_in w x) + 1) (channels_in w x)
        else channels_in w' x)
unfolding channels_in attached
channels_in-attached now w c w' x = value-put [] w' w _ x.channels

pub channels_in-detached :
    (now w c w' : ℕ) (x : MemoryUser)
    → channels_in w' (detached now w c x)
      ≡ (if w == w' then lowered c (channels_in w x) else channels_in w' x)
unfolding channels_in detached lower_channels store_channels lowered remove get count_in
channels_in-detached now w c w' x = at (get w x.channels) refl
  where
    none_there :
        (w' : ℕ) → get w x.channels ≡ none → w == w' ≡ true → [] ≡ value_or [] (get w' x.channels)
    none_there w' e same = rw (sym (==→eq w w' same), e) refl

    at :
        (o : Option (Map ℕ))
        → get w x.channels ≡ o
        → value_or [] (get w' (lower_channels w c o x.channels))
          ≡ (if w == w' then lowered c (value_or [] o) else value_or [] (get w' x.channels))
    at none e = elim (Bool-cases (w == w')) [
      | inl same ↦ rw same (sym (none_there w' e same))
      | inr other ↦ rw other refl
    ]
    at (some chs) e = stored (is_empty (lowered c chs)) refl
      where
        stored :
            (b : Bool)
            → is_empty (lowered c chs) ≡ b
            → value_or [] (get w' (store_channels w (lowered c chs) x.channels))
              ≡ (if w == w' then lowered c chs else value_or [] (get w' x.channels))
        stored true b = rw (b, value-remove, is_empty→eq (lowered c chs) b) refl
        stored false b = rw (b, value-put) refl
