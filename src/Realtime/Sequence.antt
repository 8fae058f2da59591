-- ===== src/Realtime/Sequence.antt =====
-- internal/realtime/sequence.go: the numbers that the events of a channel carry, with the sequencer in
-- memory. `Next` holds the lock for its whole run, so it is one step on the map. A number is an int64.
use Prim.Native.Nat.{◌%◌}
use native.Mathlib.Nat.{mod-add-mod, zero-mod}
use brenox_engine.Base.{
  ap, ◌∙◌, ℕ, ◌+◌, ◌≡◌, sym, inl, inr, List, [], ◌∷◌, ◌==◌, Bool-cases, count, arith, ==→eq,
}
use brenox_engine.Base.Map.{Map, value_or, get, put, value-put}

abbrev pub int64_modulus : ℕ
int64_modulus = 18446744073709551616

abbrev pub MemorySequencer : Type 0
MemorySequencer = Map ℕ

abbrev pub new_memory_sequencer : MemorySequencer
new_memory_sequencer = []

-- The number, as an int64 in two's complement below 2 ^ 64, and the sequencer after.
unfoldable pub next : ℕ → MemorySequencer → ℕ × MemorySequencer
next channel seq =
    let n = (value_or 0 (get channel seq) + 1) % int64_modulus in (n, put channel n seq)

-- The channels that were asked for, the latest first, and the sequencer that is left.
pub data SequenceReach : List ℕ → MemorySequencer → Type 0 where
  starts : SequenceReach [] new_memory_sequencer
  asks :
      {asked : List ℕ} {seq : MemorySequencer}
      → (channel : ℕ) → SequenceReach asked seq
      → SequenceReach (channel ∷ asked) (next channel seq).1

-- The last number that a channel was given counts the times it was asked for.
last-count :
    {asked : List ℕ} {seq : MemorySequencer}
    → SequenceReach asked seq
    → (channel : ℕ) → value_or 0 (get channel seq) ≡ count (λ c. c == channel) asked % int64_modulus
unfolding next get
last-count SequenceReach.starts channel = sym (zero-mod int64_modulus)
last-count (SequenceReach.asks {asked = asked} {seq = seq} c r) channel =
    elim (Bool-cases (c == channel)) [
      | inl e ↦ rw (value-put, e) (following (==→eq c channel e) (last-count r channel))
      | inr e ↦ rw (value-put, e) (last-count r channel ∙ ap (λ k. k % int64_modulus) (omega arith))
    ]
  where
    following :
        c ≡ channel
        → value_or 0 (get channel seq) ≡ count (λ x. x == channel) asked % int64_modulus
        → (value_or 0 (get c seq) + 1) % int64_modulus
          ≡ (1 + count (λ x. x == channel) asked) % int64_modulus
    following e last =
        ap (λ k. (value_or 0 (get k seq) + 1) % int64_modulus) e
        ∙ (ap (λ k. (k + 1) % int64_modulus) last
            ∙ (mod-add-mod (count (λ x. x == channel) asked) int64_modulus 1
                ∙ ap (λ k. k % int64_modulus) (omega arith)))

-- However the channels take turns, an event's number is one more than the number of events of its own
-- channel before it, modulo 2 ^ 64.
pub SequenceReach-next :
    {asked : List ℕ} {seq : MemorySequencer}
    → SequenceReach asked seq
    → (channel : ℕ) → (next channel seq).0 ≡ (count (λ c. c == channel) asked + 1) % int64_modulus
unfolding next
SequenceReach-next {asked = asked} r channel =
    ap (λ k. (k + 1) % int64_modulus) (last-count r channel)
    ∙ mod-add-mod (count (λ c. c == channel) asked) int64_modulus 1
