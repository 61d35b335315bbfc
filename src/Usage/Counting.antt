-- ===== src/Usage/Counting.antt =====
-- The count of a day, from the first chat to the limit.
use graph_node_be.Common.{
  ◌∙◌, none, Option, nat_eq, leb, if◌then◌else◌, ap, ◌-◌, All, ◌≡◌, refl, ℕ, ◌+◌, ◌*◌, ◌/◌, Bool,
  true, false, some, List, [], ◌∷◌, String, arith, Bool-cases, Option-cases, inl, inr, length,
}
use graph_node_be.Common.Text.{◌==◌, eq_refl}
use graph_node_be.Store.Rows.{DailyUsageRow, Database}
use graph_node_be.Store.Effects.{raise_if, handle, World, ◌>>◌, rate_limited, pure, Action, ok, err}
use graph_node_be.Credit.Sweep.{calm}
use graph_node_be.Usage.Repository.{
  find_by_user, upsert_for_today, day_ms, find_usage, update_usage, counted, is_same_utc_date,
}
use graph_node_be.Usage.Service.{
  rate_limit_or_upstream, check_limit, get_remaining_count, increment_usage, get_effective_count,
  get_today_utc,
}

find_usage-update_usage :
    (u : String) (today : ℕ) (b : Bool) (rows : List DailyUsageRow) (r : DailyUsageRow)
    → find_usage u rows ≡ some r
    → find_usage u (update_usage u today b rows) ≡ some (counted today b r)
unfolding find_usage update_usage
find_usage-update_usage u today b [] r e = ground arith
find_usage-update_usage u today b (x ∷ xs) r e = elim (Bool-cases (x.user_id == u)) [
  | inl hit ↦ let same : x ≡ r = ground arith in simp hit (ap (λ y. some (counted today b y)) same)
  | inr miss ↦ simp (miss, find_usage-update_usage u today b xs r (ground arith))
]

same_day : (n : ℕ) → is_same_utc_date (get_today_utc n) (get_today_utc n) ≡ true
same_day n = ground arith

-- The count that holds for user `u` on the day of `now`.
abbrev pub count_on : String → ℕ → Database → ℕ
count_on u now d = get_effective_count (find_usage u d.daily_usages) (get_today_utc now)

-- One chat.
increment-counts :
    (u : String) (now : ℕ) (d : Database)
    → (d' : Database) × (increment_usage u now (calm d) ≡ (ok tt, calm d'))
      × (count_on u now d' ≡ count_on u now d + 1)
unfolding increment_usage upsert_for_today find_by_user get_effective_count find_usage
increment-counts u now d = elim (Option-cases (find_usage u d.daily_usages)) [
  | inl missing ↦ (
    record d {
      daily_usages =
          record { user_id = u; last_reset_date = get_today_utc now; chat_count = 1 }
          ∷ d.daily_usages;
    },
    simp missing,
    simp (missing, eq_refl, same_day),
  )
  | inr (r, found) ↦ (
    record d {
      daily_usages =
          update_usage u (get_today_utc now)
            (is_same_utc_date r.last_reset_date (get_today_utc now)) d.daily_usages;
    },
    simp found,
    elim (Bool-cases (is_same_utc_date r.last_reset_date (get_today_utc now))) [
      | inl today ↦ simp (
        found,
        find_usage-update_usage u (get_today_utc now) true d.daily_usages r found,
        today,
        same_day,
      )
      | inr earlier ↦ simp (
        found,
        find_usage-update_usage u (get_today_utc now) false d.daily_usages r found,
        earlier,
        same_day,
      )
    ],
  )
]

-- One chat after the other.
unfoldable pub chats : String → List ℕ → Action (Unit {0})
chats u [] = pure tt
chats u (t ∷ ts) = do increment_usage u t; chats u ts

-- Every reading is on the UTC day of `now`, which has 86 400 000 milliseconds.
abbrev pub OnDayOf : ℕ → List ℕ → Type 0
OnDayOf now ts = All (λ t. t / 86400000 ≡ now / 86400000) ts

-- The chats that a user's row counts for the UTC day of `now`: none where it was last reset on
-- another day.
abbrev pub chats_of_day : ℕ → Option DailyUsageRow → ℕ
chats_of_day now none = 0
chats_of_day now (some r) =
    if nat_eq (r.last_reset_date / 86400000) (now / 86400000) then r.chat_count else 0

today_day : (now : ℕ) → get_today_utc now / 86400000 ≡ now / 86400000
today_day now = ground arith

count-of_day :
    (now : ℕ) (o : Option DailyUsageRow)
    → get_effective_count o (get_today_utc now) ≡ chats_of_day now o
unfolding get_effective_count
count-of_day now none = refl
count-of_day now (some r) =
    ap (λ k. if nat_eq (r.last_reset_date / 86400000) k then r.chat_count else 0) (today_day now)

same_count :
    (u : String) (t now : ℕ) (d : Database)
    → t / day_ms ≡ now / day_ms
    → count_on u t d ≡ count_on u now d
same_count u t now d h = ap (λ k. get_effective_count (find_usage u d.daily_usages) (k * day_ms)) h

chats-count :
    (u : String) (now : ℕ) (ts : List ℕ) (d : Database)
    → OnDayOf now ts
    → (d' : Database) × (chats u ts (calm d) ≡ (ok tt, calm d'))
      × (count_on u now d' ≡ count_on u now d + length ts)
unfolding chats
chats-count u now [] d h = (d, refl, omega arith)
chats-count u now (t ∷ ts) d (h, hs) =
    let (d1, ran, one) = increment-counts u t d in
    let (d2, rest, more) = chats-count u now ts d1 hs in
    let before = same_count u t now d h in
    let after_one = same_count u t now d1 h in (d2, simp (ran, rest), omega arith)

limited :
    (b : Bool) (w : World)
    → (handle rate_limit_or_upstream (raise_if b rate_limited w)).0
      ≡ (if b then err rate_limited else ok tt)
limited true w = refl
limited false w = refl

-- After any number of chats on one UTC day, where no call fails, each of them is counted on top of
-- what the user's row counted before for that day, which is nothing where the row was last reset on
-- another day: `getRemainingCount` answers with what is left of the limit, never less than 0, and
-- `checkLimit` throws RateLimitError exactly when nothing is left.
pub daily_limit :
    (limit : ℕ) (u : String) (now : ℕ) (ts : List ℕ) (d : Database)
    → OnDayOf now ts
    → let (r, w) = chats u ts (calm d) in
      let n = chats_of_day now (find_usage u d.daily_usages) + length ts in
      (r ≡ ok tt)
      × ((get_remaining_count limit u now w).0 ≡ ok (limit - n))
      × ((check_limit limit u now w).0 ≡ (if leb limit n then err rate_limited else ok tt))
unfolding get_remaining_count check_limit find_by_user
daily_limit limit u now ts d h =
    let (d', ran, counted_all) = chats-count u now ts d h in
    let total =
      counted_all ∙ ap (λ k. k + length ts) (count-of_day now (find_usage u d.daily_usages)) in
    let n = chats_of_day now (find_usage u d.daily_usages) + length ts in
    rw ran (refl, rw total refl, rw total (limited (leb limit n) (calm d')))
