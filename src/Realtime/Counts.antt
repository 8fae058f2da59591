-- ===== src/Realtime/Counts.antt =====
-- The hub's counters over a history of its loop (Hub.Run).
use text.Mathlib.Text.{◌==◌ as str_eq}
use brenox_engine.Base.{
  ap, ℕ, ◌+◌, ◌≤◌, ◌≡◌, refl, Bool, true, false, List, [], ◌∷◌, String, ◌==◌, ==→eq, if◌then◌else◌,
  delete, count, arith, Bool-cases, inl, inr,
}
use brenox_engine.Realtime.Hub.{
  Heap, Hub, new_hub, handle_register, handle_unregister, is_registered,
}

-- The loop takes a new socket, or one that is to go: a socket may be given up more than once.
pub data HubStep (heap : Heap) : Hub → Hub → Type 0 where
  registers :
      {h : Hub} (p : ℕ)
      → is_registered p h.sockets ≡ false
      → HubStep heap h (handle_register heap p h).0
  unregisters : {h : Hub} (p : ℕ) → HubStep heap h (handle_unregister heap p h).0

pub data HubReach (heap : Heap) (h : Hub) : Hub → Type 0 where
  here : HubReach heap h h
  next : {h' h'' : Hub} → HubReach heap h h' → HubStep heap h' h'' → HubReach heap h h''

abbrev pub of_user : Heap → ℕ → ℕ → Bool
of_user heap user p = (heap p).user_id == user

abbrev pub of_ip : Heap → String → ℕ → Bool
of_ip heap ip p = str_eq (heap p).remote_ip ip

pub record IsCounted (heap : Heap) (h : Hub) : Type 0 where
  pub users : (u : ℕ) → h.user_connections u ≡ count (of_user heap u) h.sockets
  pub ips : (ip : String) → h.ip_connections ip ≡ count (of_ip heap ip) h.sockets
  pub once : (p : ℕ) → count (λ q. q == p) h.sockets ≤ 1

delete-out :
    (q : ℕ → Bool) (p : ℕ) (ps : List ℕ)
    → count (λ x. x == p) ps ≡ 0
    → count q (delete (λ x. x == p) ps) ≡ count q ps
delete-out q p [] h = refl
delete-out q p (x ∷ xs) h = ground (arith, delete-out q p xs)

-- A key that is in the list once takes one from each count that it is part of.
count-delete-key :
    (q : ℕ → Bool) (p : ℕ) (ps : List ℕ)
    → count (λ x. x == p) ps ≡ 1
    → count q (delete (λ x. x == p) ps) + (if q p then 1 else 0) ≡ count q ps
count-delete-key q p [] h = absurd (omega (arith, h))
count-delete-key q p (x ∷ xs) h = elim (Bool-cases (x == p)) [
  | inl same ↦
      rw (same, ap q (==→eq x p same)) (omega (arith, delete-out q p xs (ground (arith, same))))
  | inr other ↦ rw other (omega (arith, count-delete-key q p xs (ground (arith, other))))
]

registered-count : (p : ℕ) (ps : List ℕ) → is_registered p ps ≡ true → 1 ≤ count (λ q. q == p) ps
registered-count p [] h = absurd (ground arith)
registered-count p (x ∷ xs) h = ground (arith, registered-count p xs)

absent-count : (p : ℕ) (ps : List ℕ) → is_registered p ps ≡ false → count (λ q. q == p) ps ≡ 0
absent-count p [] h = refl
absent-count p (x ∷ xs) h = ground (arith, absent-count p xs)

count-delete-le : (q : ℕ → Bool) (p : ℕ → Bool) (ps : List ℕ) → count q (delete p ps) ≤ count q ps
count-delete-le q p [] = omega arith
count-delete-le q p (x ∷ xs) = ground (arith, count-delete-le q p xs)

register-IsCounted :
    (heap : Heap) (p : ℕ) (h : Hub)
    → is_registered p h.sockets ≡ false
    → IsCounted heap h
    → IsCounted heap (handle_register heap p h).0
unfolding handle_register
register-IsCounted heap p h new v =
    rw (new, handle_register)
      record {
        users = λ u. ground (arith, v.users u);
        ips = λ ip. ground (arith, v.ips ip);
        once = λ q. ground (arith, v.once q, absent-count p h.sockets new);
      }

unregister-IsCounted :
    (heap : Heap) (p : ℕ) (h : Hub)
    → IsCounted heap h
    → IsCounted heap (handle_unregister heap p h).0
unfolding handle_unregister
unregister-IsCounted heap p h v = elim (Bool-cases (is_registered p h.sockets)) [
  | inr out ↦ rw (out, handle_unregister) v
  | inl there ↦
      let one : count (λ q. q == p) h.sockets ≡ 1 =
        omega (arith, registered-count p h.sockets there, v.once p) in
      rw (there, handle_unregister)
        record {
          users = λ u. ground (arith, v.users u, count-delete-key (of_user heap u) p h.sockets one);
          ips = λ ip. ground (arith, v.ips ip, count-delete-key (of_ip heap ip) p h.sockets one);
          once =
              λ q. omega (arith, v.once q, count-delete-le (λ x. x == q) (λ x. x == p) h.sockets);
        }
]

-- After any history of the loop, from a new hub, a user's counter and an address's counter are the
-- numbers of registered sockets that they have, and no socket is registered twice, however often a
-- socket is given up.
pub HubReach-IsCounted :
    (heap : Heap) (per_user per_ip : ℕ) (broker presence : Bool) {h : Hub}
    → HubReach heap (new_hub per_user per_ip broker presence) h
    → IsCounted heap h
unfolding new_hub
HubReach-IsCounted heap a b c d r = reached r
  where
    start : IsCounted heap (new_hub a b c d)
    start = record { users = λ u. refl; ips = λ ip. refl; once = λ p. omega arith }

    reached : {h : Hub} → HubReach heap (new_hub a b c d) h → IsCounted heap h
    reached here = start
    reached (next r (registers {h} p new)) = register-IsCounted heap p h new (reached r)
    reached (next r (unregisters {h} p)) = unregister-IsCounted heap p h (reached r)
