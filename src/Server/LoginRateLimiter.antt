-- ===== src/Server/LoginRateLimiter.antt =====
-- internal/server/login_rate_limiter.go: how many failed logins block a key, and for how long.
-- Times and durations are nanoseconds, a time is counted from the zero time, and durations stay
-- below the 292 years at which `Sub` saturates. The mutex makes each method one step. A setting
-- below zero is taken like zero by the code; here the settings are natural numbers.
pub mod Entries
pub mod Blocking
use grns.Base.{
  ℕ, ◌^◌, zero, suc, ◌+◌, ◌-◌, ◌*◌, ◌%◌, Bool, true, false, not, ◌&&◌, ◌||◌, List, [], ◌∷◌, Option,
  none, some, if◌then◌else◌, ltb, leb, ◌==◌, nat_eq, filter, is_empty,
}
use grns.Base.Text.{Text, text_eq}
use grns.Models.{Time}

-- loginRateLimitEntry
pub record Entry : Type 0 where
  pub failures : ℕ
  pub first_failure_at : Time
  pub blocked_until : Time
  pub last_seen_at : Time

abbrev pub no_entry : Entry
no_entry = record { failures = 0; first_failure_at = 0; blocked_until = 0; last_seen_at = 0 }

-- loginRateLimiter
pub record Limiter : Type 0 where
  pub entries : List (Text × Entry)
  pub max_failures : ℕ
  pub window : ℕ
  pub blocked_for : ℕ
  pub stale_after : ℕ
  pub op_count : ℕ
  pub cleanup_every_n : ℕ

abbrev pub ten_minutes : ℕ
ten_minutes = 600000000000

-- The sign of the int64 that these 64 bits stand for.
abbrev pub is_negative : ℕ → Bool
is_negative bits = leb (2 ^ 63) bits

-- newLoginRateLimiter; `none` is the nil limiter. The doubling wraps as that of an int64.
unfoldable pub new_login_rate_limiter : ℕ → ℕ → ℕ → Option Limiter
new_login_rate_limiter max_failures window blocked_for =
    if (max_failures == 0) || (window == 0) || (blocked_for == 0)
    then none
    else (let longest = if ltb window blocked_for then blocked_for else window in
        let doubled = longest * 2 % 2 ^ 64 in
        some (record {
          entries = [];
          max_failures = max_failures;
          window = window;
          blocked_for = blocked_for;
          stale_after =
              if is_negative doubled || ltb doubled ten_minutes then ten_minutes else doubled;
          op_count = 0;
          cleanup_every_n = 64;
        }))

-- The map: a missing key reads as the zero entry.
unfoldable pub entry_of : Text → List (Text × Entry) → Entry
entry_of key [] = no_entry
entry_of key (e ∷ es) = let rest = entry_of key es in if e.0 == key then e.1 else rest

unfoldable pub delete_entry : Text → List (Text × Entry) → List (Text × Entry)
delete_entry key es = filter (λ e. not (e.0 == key)) es

unfoldable pub put_entry : Text → Entry → List (Text × Entry) → List (Text × Entry)
unfolding delete_entry
put_entry key entry es = (key, entry) ∷ delete_entry key es

-- The entries that the clean-up keeps.
unfoldable pub is_kept : ℕ → Time → Text × Entry → Bool
is_kept stale_after now e =
    not ((e.1.last_seen_at == 0) || ltb stale_after (now - e.1.last_seen_at))

unfoldable pub maybe_cleanup : Time → Limiter → Limiter
unfolding is_kept
maybe_cleanup now l =
    let count = suc l.op_count in
    let every = if l.cleanup_every_n == 0 then 64 else l.cleanup_every_n in
    record l {
      op_count = count;
      cleanup_every_n = every;
      entries =
          if not (count % every == 0)
          then l.entries
          else filter (is_kept l.stale_after now) l.entries;
    }

unfoldable pub save_entry : Text → Time → Entry → Limiter → Limiter
unfolding maybe_cleanup put_entry
save_entry key now entry l =
    maybe_cleanup now
      (record l { entries = put_entry key (record entry { last_seen_at = now }) l.entries })

-- The entry of a key that is let in.
unfoldable pub allowed_entry : ℕ → Time → Entry → Entry
allowed_entry window now e =
    let expired = not (e.first_failure_at == 0) && ltb window (now - e.first_failure_at) in
    record e {
      failures = if expired then 0 else e.failures;
      first_failure_at = if expired then 0 else e.first_failure_at;
      blocked_until =
          if not (e.blocked_until == 0) && not (ltb now e.blocked_until)
          then 0
          else e.blocked_until;
    }

unfoldable pub is_blocked : Time → Entry → Bool
is_blocked now e = not (e.blocked_until == 0) && ltb now e.blocked_until

unfoldable pub allow : Text → Time → Limiter → Bool × Limiter
unfolding entry_of is_blocked save_entry allowed_entry
allow key now l =
    if is_empty key
    then (true, l)
    else (let entry = entry_of key l.entries in
        if is_blocked now entry
        then (false, save_entry key now entry l)
        else (true, save_entry key now (allowed_entry l.window now entry) l))

-- A failure more, in a window that starts again when the last one is over.
unfoldable pub failed_entry : ℕ → ℕ → ℕ → Time → Entry → Entry
failed_entry max_failures window blocked_for now e =
    let fresh = (e.first_failure_at == 0) || ltb window (now - e.first_failure_at) in
    let failures = suc (if fresh then 0 else e.failures) in
    if leb max_failures failures
    then record e { blocked_until = now + blocked_for; failures = 0; first_failure_at = 0 }
    else record e {
      failures = failures;
      first_failure_at = if fresh then now else e.first_failure_at;
    }

unfoldable pub register_failure : Text → Time → Limiter → Limiter
unfolding entry_of failed_entry save_entry
register_failure key now l =
    if is_empty key
    then l
    else save_entry key now
        (failed_entry l.max_failures l.window l.blocked_for now (entry_of key l.entries)) l

unfoldable pub reset : Text → Limiter → Limiter
unfolding delete_entry
reset key l = if is_empty key then l else record l { entries = delete_entry key l.entries }
