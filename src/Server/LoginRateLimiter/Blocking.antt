-- ===== src/Server/LoginRateLimiter/Blocking.antt =====
-- A key that is blocked stays blocked until its time is over.
use grns.Base.{
  ℕ, ◌^◌, suc, ◌+◌, ◌-◌, ◌<◌, ◌≤◌, ◌≡◌, ◌≢◌, sym, subst, if-both, Bool, true, false, List, [], ◌∷◌,
  some, nat_eq, is_empty, all, &&-eq-true, arith,
}
use grns.Base.Text.{Text, text_eq}
use grns.Models.{Time}
use grns.Server.LoginRateLimiter.{
  Entry, Limiter, entry_of, maybe_cleanup, save_entry, allowed_entry, is_blocked, allow,
  failed_entry, register_failure, reset, new_login_rate_limiter,
}
use grns.Server.LoginRateLimiter.Entries.{
  Event, handle, handle_all, keeps_block, IsHeld, IsConfigured, entry_of-filter_other,
  save-entry_of-same, save-IsHeld, on_allow, on_failure, on_reset,
}

-- The entry that a failure leaves, and the one that an attempt leaves, of a held key.
allowed-until :
    (since blocked_for window now : ℕ) (e : Entry)
    → now < since + blocked_for
    → IsHeld since blocked_for e
    → since + blocked_for ≤ (allowed_entry window now e).blocked_until
unfolding allowed_entry
allowed-until since blocked_for window now e h held = ground (arith, held.until, h)

failed-until :
    (since blocked_for max_failures window now : ℕ) (e : Entry)
    → since ≤ now
    → IsHeld since blocked_for e
    → since + blocked_for ≤ (failed_entry max_failures window blocked_for now e).blocked_until
unfolding failed_entry
failed-until since blocked_for max_failures window now e h held = ground (arith, held.until, h)

handle-IsHeld :
    (since blocked_for : ℕ) (key : Text) (e : Event) (l : Limiter)
    → 0 < since
    → keeps_block key since blocked_for e ≡ true
    → IsConfigured blocked_for l
    → IsHeld since blocked_for (entry_of key l.entries)
    → IsHeld since blocked_for (entry_of key (handle e l).entries)
unfolding handle keeps_block
handle-IsHeld since blocked_for key (on_allow k now) l p h c old =
    if-both (λ (r : Bool × Limiter). IsHeld since blocked_for (entry_of key r.1.entries))
      (is_empty k) (true, l) _ (λ _. old)
      λ _.
        if-both (λ (r : Bool × Limiter). IsHeld since blocked_for (entry_of key r.1.entries))
          (is_blocked now (entry_of k l.entries)) _ _
          (λ _.
            save-IsHeld since blocked_for now key k (entry_of k l.entries) l p (ground (arith, h))
              (ground (arith, h)) c
              (λ same.
                subst (λ v. since + blocked_for ≤ (entry_of v l.entries).blocked_until)
                  (sym ((text_eq.beq_iff k key).0 same)) old.until)
              old)
          λ _.
            save-IsHeld since blocked_for now key k
              (allowed_entry l.window now (entry_of k l.entries)) l p (ground (arith, h))
              (ground (arith, h)) c
              (λ same.
                allowed-until since blocked_for l.window now (entry_of k l.entries)
                  (ground (arith, h))
                  (subst (λ v. IsHeld since blocked_for (entry_of v l.entries))
                    (sym ((text_eq.beq_iff k key).0 same)) old))
              old
handle-IsHeld since blocked_for key (on_failure k now) l p h c old =
    if-both (λ r. IsHeld since blocked_for (entry_of key r.entries)) (is_empty k) l _ (λ _. old)
      λ _.
        save-IsHeld since blocked_for now key k
          (failed_entry l.max_failures l.window l.blocked_for now (entry_of k l.entries)) l p
          (ground (arith, h)) (ground (arith, h)) c
          (λ same.
            subst
              (λ b.
                since + blocked_for
                ≤ (failed_entry l.max_failures l.window b now (entry_of k l.entries)).blocked_until)
              (sym c.same_block)
              (failed-until since blocked_for l.max_failures l.window now (entry_of k l.entries)
                (ground (arith, h))
                (subst (λ v. IsHeld since blocked_for (entry_of v l.entries))
                  (sym ((text_eq.beq_iff k key).0 same)) old)))
          old
handle-IsHeld since blocked_for key (on_reset k) l p h c old =
    if-both (λ r. IsHeld since blocked_for (entry_of key r.entries)) (is_empty k) l _ (λ _. old)
      λ _.
        subst (IsHeld since blocked_for)
          (sym (entry_of-filter_other key k l.entries (ground (arith, h)))) old

handle-IsConfigured :
    (blocked_for : ℕ) (e : Event) (l : Limiter)
    → IsConfigured blocked_for l
    → IsConfigured blocked_for (handle e l)
unfolding handle allow register_failure reset save_entry maybe_cleanup
handle-IsConfigured blocked_for (on_allow k now) l c =
    if-both (λ (r : Bool × Limiter). IsConfigured blocked_for r.1) (is_empty k) (true, l) _ (λ _. c)
      λ _.
        if-both (λ (r : Bool × Limiter). IsConfigured blocked_for r.1)
          (is_blocked now (entry_of k l.entries)) _ _
          (λ _. record { same_block = c.same_block; outlives = c.outlives })
          λ _. record { same_block = c.same_block; outlives = c.outlives }
handle-IsConfigured blocked_for (on_failure k now) l c =
    if-both (IsConfigured blocked_for) (is_empty k) l _ (λ _. c)
      λ _. record { same_block = c.same_block; outlives = c.outlives }
handle-IsConfigured blocked_for (on_reset k) l c =
    if-both (IsConfigured blocked_for) (is_empty k) l _ (λ _. c)
      λ _. record { same_block = c.same_block; outlives = c.outlives }

unfoldable pub keeps_block_all : Text → Time → ℕ → List Event → Bool
unfolding keeps_block
keeps_block_all key since blocked_for events = all (keeps_block key since blocked_for) events

handle_all-IsHeld :
    (since blocked_for : ℕ) (key : Text) (events : List Event) (l : Limiter)
    → 0 < since
    → keeps_block_all key since blocked_for events ≡ true
    → IsConfigured blocked_for l
    → IsHeld since blocked_for (entry_of key l.entries)
    → IsHeld since blocked_for (entry_of key (handle_all events l).entries)
unfolding handle_all keeps_block_all
handle_all-IsHeld since blocked_for key [] l p h c old = old
handle_all-IsHeld since blocked_for key (e ∷ events) l p h c old =
    let both = &&-eq-true (keeps_block key since blocked_for e) _ h in
    handle_all-IsHeld since blocked_for key events (handle e l) p both.1
      (handle-IsConfigured blocked_for e l c)
      (handle-IsHeld since blocked_for key e l p both.0 c old)

held-refused :
    (since blocked_for now : ℕ) (key : Text) (l : Limiter)
    → is_empty key ≡ false
    → now < since + blocked_for
    → IsHeld since blocked_for (entry_of key l.entries)
    → (allow key now l).0 ≡ false
unfolding allow is_blocked
held-refused since blocked_for now key l k h held = ground (arith, k, h, held.until)

-- The failure that reaches the limit.
unfoldable pub IsLastFailure : Text → Time → Limiter → Type 0
IsLastFailure key now l =
    let entry = entry_of key l.entries in
    (entry.first_failure_at ≢ 0)
    × (now - entry.first_failure_at ≤ l.window)
    × (l.max_failures ≤ suc entry.failures)

last_failure-blocked :
    (now : Time) (max_failures window blocked_for : ℕ) (e : Entry)
    → e.first_failure_at ≢ 0
    → now - e.first_failure_at ≤ window
    → max_failures ≤ suc e.failures
    → (failed_entry max_failures window blocked_for now e).blocked_until ≡ now + blocked_for
unfolding failed_entry
last_failure-blocked now max_failures window blocked_for e a b c = ground (arith, a, b, c)

last_failure-IsHeld :
    (key : Text) (since : Time) (l : Limiter)
    → is_empty key ≡ false
    → 0 < since
    → IsLastFailure key since l
    → IsHeld since l.blocked_for (entry_of key (register_failure key since l).entries)
unfolding register_failure IsLastFailure
last_failure-IsHeld key since l k p (a, b, c) = rw (k) (
    subst (IsHeld since l.blocked_for)
      (sym (
        save-entry_of-same key since
          (failed_entry l.max_failures l.window l.blocked_for since (entry_of key l.entries)) l p))
      (record {
        until = omega (
          arith,
          last_failure-blocked since l.max_failures l.window l.blocked_for (entry_of key l.entries)
              a b c,
        );
        seen = omega arith;
      }))

-- Every limiter that is built from durations below 2 ^ 62 nanoseconds, at which the doubling does
-- not wrap, waits with its clean-up for at least as long as a block lasts.
pub new_login_rate_limiter-IsConfigured :
    (max_failures window blocked_for : ℕ) (l : Limiter)
    → window < 2 ^ 62
    → blocked_for < 2 ^ 62
    → new_login_rate_limiter max_failures window blocked_for ≡ some l
    → IsConfigured blocked_for l
unfolding new_login_rate_limiter
new_login_rate_limiter-IsConfigured max_failures window blocked_for l small short h = record {
  same_block = ground (arith, h);
  outlives = ground (arith, h);
}

-- A key whose failures reach the limit at some time is refused at every time until the block is
-- over, whatever attempts, failures and resets of any clients come between, in any order, as long
-- as they fall into that time and the key itself is not reset: no clean-up forgets the block.
pub block_lasts :
    (key : Text) (since now : Time) (events : List Event) (l : Limiter)
    → is_empty key ≡ false
    → 0 < since
    → IsConfigured l.blocked_for l
    → IsLastFailure key since l
    → keeps_block_all key since l.blocked_for events ≡ true
    → now < since + l.blocked_for
    → (allow key now (handle_all events (register_failure key since l))).0 ≡ false
unfolding register_failure handle
block_lasts key since now events l k p c last h before =
    held-refused since l.blocked_for now key (handle_all events (register_failure key since l)) k
      before
      (handle_all-IsHeld since l.blocked_for key events (register_failure key since l) p h
        (handle-IsConfigured l.blocked_for (on_failure key since) l c)
        (last_failure-IsHeld key since l k p last))
