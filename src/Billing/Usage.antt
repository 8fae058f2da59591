-- ===== src/Billing/Usage.antt =====
-- What the metering of a call adds to the counters.
use brenox_engine.Base.{
  ℕ, ◌+◌, ◌≤◌, ◌≡◌, refl, ◌⊎◌, inl, inr, Bool, true, ◌&&◌, List, [], ◌∷◌, Option, none, some, ◌==◌,
  leb, leb→le, ==→eq, ==-refl, arith, Bool-cases, if◌then◌else◌, select, select_all, update, count,
  count-pos, is_some,
}
use brenox_engine.Base.Monad.{Result, ok, err}
use brenox_engine.Db.{Error, accounts}
use brenox_engine.Db.Accounts.{App, UsageCounter, Accounts}
use brenox_engine.Db.Triple.{Triple, Answers, Triple-bind, Triple-pure, Triple-write}
use brenox_engine.Db.Reads.{Triple-optional_read}
use brenox_engine.Queries.Billing.{
  find_app_of, owner_minutes, owner_messages, is_owned_usage, is_counter, add_usage, sum,
}
use brenox_engine.Billing.Quotas.{record_video_minutes_by_workspace_id, record_minutes_in}
use brenox_engine.Billing.Allowances.{IsBilled, IsFree}

abbrev pub is_owned_app : ℕ → ℕ → Accounts → Bool
is_owned_app app owner t = is_some (select (λ a. a.id == app && a.owner_id == owner) t.apps)

-- The owner of the app has used `minutes` more, nobody else has, and no messages are counted.
pub record IsCharged (app minutes : ℕ) (T T' : Accounts) : Type 0 where
  pub minutes_more :
      (owner : ℕ)
      → owner_minutes owner T'
        ≡ owner_minutes owner T + (if is_owned_app app owner T then minutes else 0)
  pub messages_same : (owner : ℕ) → owner_messages owner T' ≡ owner_messages owner T

abbrev added_to : (UsageCounter → Bool) → ℕ → List UsageCounter → ℕ
added_to p k [] = 0
added_to p k (u ∷ us) = (if p u then k else 0) + added_to p k us

added_none :
    (p : UsageCounter → Bool) (k : ℕ) (us : List UsageCounter)
    → count p us ≡ 0
    → added_to p k us ≡ 0
added_none p k [] h = refl
added_none p k (u ∷ us) h = ground (arith, added_none p k us)

added_once :
    (p : UsageCounter → Bool) (k : ℕ) (us : List UsageCounter)
    → count p us ≡ 1
    → added_to p k us ≡ k
added_once p k [] h = absurd (omega (arith, h))
added_once p k (u ∷ us) h = ground (arith, added_once p k us, added_none p k us)

-- An update adds to the sum over the rows that fit what it adds to each row that it meets.
sum-update :
    (q p : UsageCounter → Bool) (f : UsageCounter → ℕ) (g : UsageCounter → UsageCounter) (k : ℕ)
    (b : Bool) (us : List UsageCounter)
    → ((u : UsageCounter) → q (g u) ≡ q u)
    → ((u : UsageCounter) → f (g u) ≡ f u + k)
    → ((u : UsageCounter) → p u ≡ true → q u ≡ b)
    → sum f (select_all q (update p g us))
      ≡ sum f (select_all q us) + (if b then added_to p k us else 0)
sum-update q p f g k b [] h1 h2 h3 = ground arith
sum-update q p f g k b (u ∷ us) h1 h2 h3 =
    ground (arith, h1 u, h2 u, h3 u, sum-update q p f g k b us h1 h2 h3)

abbrev more : ℕ → ℕ → UsageCounter → UsageCounter
more messages minutes c = record c {
  messages_count = c.messages_count + messages;
  video_minutes = c.video_minutes + minutes;
}

module _ (app minutes : ℕ) (T : Accounts) (once : count (is_counter app T.month) T.usage ≤ 1) where
  owned_counter :
      (owner : ℕ) (u : UsageCounter)
      → is_counter app T.month u ≡ true
      → is_owned_usage owner T u ≡ is_owned_app app owner T
  owned_counter owner u h =
      let own : u.app_id ≡ app = ==→eq u.app_id app (ground arith) in
      let month : (u.period_month == T.month) ≡ true = ground arith in rw (month, own) refl

  counted-IsCharged :
      (now : ℕ) (o : Option UsageCounter)
      → select (is_counter app T.month) T.usage ≡ o
      → Answers
          (λ x T'. IsCharged app minutes T T')
          (λ e T'. T' ≡ T)
          (add_usage app 0 minutes now T)
  counted-IsCharged now none e =
      rw (e, add_usage)
        record {
          minutes_more = λ owner. rw (==-refl T.month) (ground arith);
          messages_same = λ owner. rw (==-refl T.month) (ground arith);
        }
  counted-IsCharged now (some c) e =
      let one : count (is_counter app T.month) T.usage ≡ 1 =
        omega (arith, once, count-pos (is_counter app T.month) T.usage e) in
      rw (e, add_usage)
        record {
          minutes_more = λ owner. ground (
            arith,
            added_once (is_counter app T.month) minutes T.usage one,
            sum-update (is_owned_usage owner T) (is_counter app T.month) (λ u. u.video_minutes)
                (more 0 minutes) minutes (is_owned_app app owner T) T.usage (λ u. refl) (λ u. refl)
                (owned_counter owner),
          );
          messages_same = λ owner. ground (
            arith,
            added_once (is_counter app T.month) 0 T.usage one,
            sum-update (is_owned_usage owner T) (is_counter app T.month) (λ u. u.messages_count)
                (more 0 minutes) 0 (is_owned_app app owner T) T.usage (λ u. refl) (λ u. refl)
                (owned_counter owner),
          );
        }

-- Recording the minutes of a call in a workspace adds them to the month's minutes of the owner of the
-- workspace's app, to nobody else's, and counts no message; it changes nothing where there are no
-- minutes, the workspace has no app, or it is an app's sandbox, and where it fails. An app has one
-- counter per month at most.
pub record_video_minutes_by_workspace_id-IsCharged :
    (w n : ℕ) (T : Accounts)
    → ((app : ℕ) → count (is_counter app T.month) T.usage ≤ 1)
    → Triple accounts T
        (record_video_minutes_by_workspace_id w n)
        (λ x T'.
          (((n ≤ 0) ⊎ IsFree w T) × (T' ≡ T))
          ⊎ ((app : App) × (IsBilled w app T × IsCharged app.id n T T')))
        (λ e T'. T' ≡ T)
unfolding record_video_minutes_by_workspace_id record_minutes_in
record_video_minutes_by_workspace_id-IsCharged w n T once = elim (Bool-cases (leb n 0)) [
  | inl idle ↦ rw idle (Triple-pure tt (inl (inl (leb→le n 0 idle), refl)))
  | inr timed ↦ rw timed (Triple-bind (Triple-optional_read (find_app_of w) charge refl))
]
  where
    Outcome : Unit {0} → Accounts → Type 0
    Outcome x T' =
        (((n ≤ 0) ⊎ IsFree w T) × (T' ≡ T))
        ⊎ ((app : App) × (IsBilled w app T × IsCharged app.id n T T'))

    stored :
        (app : App)
        → IsBilled w app T
        → (p : Result Error (Unit {0}) × Accounts)
        → Answers (λ x T'. IsCharged app.id n T T') (λ e T'. T' ≡ T) p
        → Answers Outcome (λ e T'. T' ≡ T) p
    stored app billed (ok x, T') k = inr (app, (billed, k))
    stored app billed (err e, T') k = k

    charge :
        (o : Option App)
        → find_app_of w T ≡ o
        → Triple accounts T (record_minutes_in w n o) Outcome (λ e T'. T' ≡ T)
    charge none found = Triple-pure tt (inl (inr (inl found), refl))
    charge (some app) found = elim (Bool-cases (w == app.sandbox_workspace_id)) [
      | inl sandbox ↦ rw sandbox (Triple-pure tt (inl (inr (inr (app, (found, sandbox))), refl)))
      | inr live ↦ rw live (
          Triple-write (add_usage app.id 0 n)
            (λ now.
              stored app (record { found = found; live = live }) _
                (counted-IsCharged app.id n T (once app.id) now _ refl))
            refl)
    ]
