-- ===== src/Presence/Listing.antt =====
-- The presence list of a workspace (ListWorkspacePresence).
use brenox_engine.Base.{
  ℕ, ◌≤◌, ◌≡◌, refl, ◌∙◌, sym, inl, inr, Bool, true, false, ◌&&◌, List, [], ◌∷◌, Option, none, some,
  ◌==◌, ltb, Bool-cases, is_some, select, count, arith, ==→eq, ==-refl,
}
use brenox_engine.Base.Map.{get}
use brenox_engine.Base.Monad.{Result, ok, err}
use brenox_engine.Db.{Error}
use brenox_engine.Presence.Store.{
  MemoryUser, MemoryStore, UserPresence, get_presence, presence_of, to_presence,
  list_workspace_online_user_ids,
}
use brenox_engine.Presence.Log.{Connection, of_user, of_place}
use brenox_engine.Presence.Spec.{PresenceReach}
use brenox_engine.Presence.Reads.{Reads, PresenceReach-Reads}
use brenox_engine.Presence.Service.{PresenceError, connected_of, list_workspace_presence}

get_presence-user_id : (u : ℕ) (s : MemoryStore) → (get_presence u s).user_id ≡ u
unfolding get_presence presence_of to_presence
get_presence-user_id u s = at (get u s.users)
  where
    at : (o : Option MemoryUser) → (presence_of u o).user_id ≡ u
    at none = refl
    at (some x) = refl

abbrev pub lists : ℕ → List UserPresence → Bool
lists u ps = is_some (select (λ p. p.user_id == u) ps)

lists-connected_of :
    (s : MemoryStore) (u : ℕ) (ids : List ℕ)
    → lists u (connected_of s ids)
      ≡ (is_some (select (λ j. j == u) ids) && ltb 0 (get_presence u s).connection_count)
unfolding connected_of
lists-connected_of s u [] = refl
lists-connected_of s u (j ∷ js) = elim (Bool-cases (j == u)) [
  | inl same ↦
      rw (same, sym (==→eq j u same))
        (elim (Bool-cases (ltb 0 n)) [
          | inl open_ ↦ rw (open_, get_presence-user_id j s, ==-refl j) refl
          | inr closed ↦ rw closed (nobody _ (lists-connected_of s j js) closed)
        ])
  | inr other ↦ elim (Bool-cases (ltb 0 n)) [
    | inl open_ ↦ rw (open_, get_presence-user_id j s, other) (lists-connected_of s u js)
    | inr closed ↦ rw (closed, other) (lists-connected_of s u js)
  ]
]
  where
    n : ℕ
    n = (get_presence j s).connection_count

    nobody : (a : Bool) {x b : Bool} → x ≡ (a && b) → b ≡ false → x ≡ false
    nobody a h e = ground arith

place-user : (u w : ℕ) (log : List Connection) → count (of_place u w) log ≤ count (of_user u) log
place-user u w [] = omega arith
place-user u w (x ∷ xs) = ground (arith, place-user u w xs)

-- Who is listed by an answer; an error lists nobody.
abbrev pub answer_lists : ℕ → Result PresenceError (List UserPresence) → Bool
answer_lists u (ok ps) = lists u ps
answer_lists u (err e) = false

abbrev pub says_yes : Result Error Bool → Bool
says_yes (ok b) = b
says_yes (err e) = false

-- ListWorkspacePresence lists, for a member of the workspace, exactly the users with an open
-- connection there, and for anybody else, or if the query for the membership fails, nobody, after any
-- history of the store's methods in which only open connections are closed.
pub PresenceReach-answer_lists :
    (answer : Result Error Bool) (w u : ℕ) {log : List Connection} {s : MemoryStore}
    → PresenceReach log s
    → answer_lists u (list_workspace_presence answer w s)
      ≡ (says_yes answer && ltb 0 (count (of_place u w) log))
unfolding list_workspace_presence
PresenceReach-answer_lists (err e) w u r = refl
PresenceReach-answer_lists (ok false) w u r = refl
PresenceReach-answer_lists (ok true) w u {log} {s} r =
    lists-connected_of s u (list_workspace_online_user_ids w s)
    ∙ rw (read.listed w u, read.totals u) (ground (arith, place-user u w log))
  where
    read : Reads log s
    read = PresenceReach-Reads r
