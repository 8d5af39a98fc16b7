-- ===== src/Server/LoginRateLimiter/Entries.antt =====
-- internal/server/login_rate_limiter.go: the entry of one key through the changes of the map.
use grns.Base.{
  ℕ, ◌+◌, ◌-◌, ◌<◌, ◌≤◌, ◌≡◌, ◌≢◌, refl, ◌∙◌, sym, subst, Bool-cases, inl, inr, Bool, true, false,
  not, ◌&&◌, List, [], ◌∷◌, ltb, leb, ◌==◌, nat_eq, filter, arith,
}
use grns.Base.Text.{Text, text_eq}
use grns.Models.{Time}
use grns.Server.LoginRateLimiter.{
  Entry, Limiter, entry_of, delete_entry, put_entry, is_kept, maybe_cleanup, save_entry, allow,
  register_failure, reset,
}

-- A login attempt of any client.
pub data Event : Type 0 where
  on_allow : Text → Time → Event
  on_failure : Text → Time → Event
  on_reset : Text → Event

unfoldable pub handle : Event → Limiter → Limiter
unfolding allow register_failure reset
handle (on_allow key now) l = (allow key now l).1
handle (on_failure key now) l = register_failure key now l
handle (on_reset key) l = reset key l

unfoldable pub handle_all : List Event → Limiter → Limiter
unfolding handle
handle_all [] l = l
handle_all (e ∷ es) l = handle_all es (handle e l)

-- While the key is blocked: other keys may do anything, the key itself is not reset.
unfoldable pub keeps_block : Text → Time → ℕ → Event → Bool
keeps_block key since blocked_for (on_allow k now) = leb since now && ltb now (since + blocked_for)
keeps_block key since blocked_for (on_failure k now) =
    leb since now && ltb now (since + blocked_for)
keeps_block key since blocked_for (on_reset k) = not (k == key)

-- The entry of a key that was blocked at `since`, or later.
pub record IsHeld (since : Time) (blocked_for : ℕ) (e : Entry) : Type 0 where
  pub until : since + blocked_for ≤ e.blocked_until
  pub seen : since ≤ e.last_seen_at

-- The clean-up waits longer than any block lasts.
pub record IsConfigured (blocked_for : ℕ) (l : Limiter) : Type 0 where
  pub same_block : l.blocked_for ≡ blocked_for
  pub outlives : blocked_for ≤ l.stale_after

pub entry_of-filter_other :
    (key other : Text) (es : List (Text × Entry))
    → (other == key) ≡ false
    → entry_of key (delete_entry other es) ≡ entry_of key es
unfolding entry_of delete_entry
entry_of-filter_other key other [] h = refl
entry_of-filter_other key other (e ∷ es) h = ground (
  arith,
  entry_of-filter_other key other es h,
  text_eq.beq_iff e.0 other,
  text_eq.beq_iff e.0 key,
  text_eq.beq_iff other key,
)

entry_of-put_other :
    (key other : Text) (entry : Entry) (es : List (Text × Entry))
    → (other == key) ≡ false
    → entry_of key (put_entry other entry es) ≡ entry_of key es
unfolding put_entry entry_of
entry_of-put_other key other entry es h = ground (arith, entry_of-filter_other key other es h)

entry_of-put_same :
    (key : Text) (entry : Entry) (es : List (Text × Entry))
    → entry_of key (put_entry key entry es) ≡ entry
unfolding put_entry entry_of
entry_of-put_same key entry es = ground (arith, text_eq.beq_iff key key)

-- A key with a block in it has an entry, and the clean-up keeps a live one.
entry_of-kept :
    (key : Text) (stale_after now : ℕ) (es : List (Text × Entry))
    → (entry_of key es).last_seen_at ≢ 0
    → now - (entry_of key es).last_seen_at ≤ stale_after
    → entry_of key (filter (is_kept stale_after now) es) ≡ entry_of key es
unfolding entry_of is_kept
entry_of-kept key stale_after now [] h k = refl
entry_of-kept key stale_after now (e ∷ es) h k =
    ground (arith, entry_of-kept key stale_after now es)

-- The entries after an operation: the clean-up kept the key's, or did not run.
cleanup-entry_of :
    (key : Text) (now : Time) (l : Limiter)
    → (entry_of key l.entries).last_seen_at ≢ 0
    → now - (entry_of key l.entries).last_seen_at ≤ l.stale_after
    → entry_of key (maybe_cleanup now l).entries ≡ entry_of key l.entries
unfolding maybe_cleanup
cleanup-entry_of key now l h k = ground (arith, entry_of-kept key l.stale_after now l.entries h k)

save-entry_of-other :
    (key k : Text) (now : Time) (entry : Entry) (l : Limiter)
    → (k == key) ≡ false
    → (entry_of key l.entries).last_seen_at ≢ 0
    → now - (entry_of key l.entries).last_seen_at ≤ l.stale_after
    → entry_of key (save_entry k now entry l).entries ≡ entry_of key l.entries
unfolding save_entry
save-entry_of-other key k now entry l other h kept =
    cleanup-entry_of key now
      (record l { entries = put_entry k (record entry { last_seen_at = now }) l.entries })
      (rw (same) h) (rw (same) kept)
    ∙ same
  where
    same :
        entry_of key (put_entry k (record entry { last_seen_at = now }) l.entries)
        ≡ entry_of key l.entries
    same = entry_of-put_other key k (record entry { last_seen_at = now }) l.entries other

pub save-entry_of-same :
    (key : Text) (now : Time) (entry : Entry) (l : Limiter)
    → 0 < now
    → entry_of key (save_entry key now entry l).entries ≡ record entry { last_seen_at = now }
unfolding save_entry
save-entry_of-same key now entry l h =
    cleanup-entry_of key now
      (record l { entries = put_entry key (record entry { last_seen_at = now }) l.entries })
      (rw (same) present) (rw (same) (omega arith))
    ∙ same
  where
    same :
        entry_of key (put_entry key (record entry { last_seen_at = now }) l.entries)
        ≡ record entry { last_seen_at = now }
    same = entry_of-put_same key (record entry { last_seen_at = now }) l.entries

    present : now ≢ 0
    present = omega (arith, h)

pub save-IsHeld :
    (since blocked_for now : ℕ) (key k : Text) (entry : Entry) (l : Limiter)
    → 0 < since
    → since ≤ now
    → now < since + blocked_for
    → IsConfigured blocked_for l
    → ((k == key) ≡ true → since + blocked_for ≤ entry.blocked_until)
    → IsHeld since blocked_for (entry_of key l.entries)
    → IsHeld since blocked_for (entry_of key (save_entry k now entry l).entries)
save-IsHeld since blocked_for now key k entry l p before after c new old =
    elim (Bool-cases (k == key)) [
      | inl same ↦
          subst (λ v. IsHeld since blocked_for (entry_of v (save_entry k now entry l).entries))
            ((text_eq.beq_iff k key).0 same)
            (subst (IsHeld since blocked_for)
              (sym (save-entry_of-same k now entry l (omega (arith, p, before))))
              (record { until = new same; seen = before }))
      | inr other ↦
          subst (IsHeld since blocked_for)
            (sym (
              save-entry_of-other key k now entry l other (omega (arith, p, old.seen))
                (omega (arith, old.seen, after, c.outlives))))
            old
    ]
