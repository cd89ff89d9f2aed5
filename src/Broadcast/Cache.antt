-- ===== src/Broadcast/Cache.antt =====
-- apps/api/src/modules/broadcast/cache.rs on the redis of it: how many listen to each live broadcast,
-- when it was started, and the grace of its host. INCR and DECR count a missing key as 0 and fail
-- where the result is no i64. The entries of lists, which are dropped by a pattern of their names, are left
-- out.
use meno.Prelude.{ℕ, ◌-◌, ◌^◌, Bool, ◌&&◌, Option, ◌==◌, if◌then◌else◌, unwrap_or}
use meno.Prelude.Int.{ℤ, pos, negsuc, pos_part, neg_part, ◌+ℤ◌, leb_ℤ}
use meno.Prelude.Maps.{Map, get, put, erase}

pub record Redis : Type 0 where
  pub live_count : Map ℤ
  pub host_grace : Map ℕ
  pub started_at : Map ℕ

unfoldable pub is_i64 : ℤ → Bool
is_i64 a = leb_ℤ (negsuc (2 ^ 63 - 1)) a && leb_ℤ a (pos (2 ^ 63 - 1))

unfoldable pub larger : ℤ → ℤ → ℤ
larger a b = if leb_ℤ a b then b else a

unfoldable pub is_zero : ℤ → Bool
is_zero a = (pos_part a == 0) && (neg_part a == 0)

-- INCR (`by` 1) and DECR (`by` -1), with the value where the command fails.
unfoldable pub add_or : ℤ → ℤ → ℕ → Redis → ℤ × Redis
unfolding is_i64 get put
add_or failed by b r =
    let count = unwrap_or (get b r.live_count) (pos 0) +ℤ by in
    if is_i64 count
    then (count, record r { live_count = put b count r.live_count })
    else (failed, r)

unfoldable pub set_started_at : ℕ → ℕ → Redis → Redis
unfolding put
set_started_at b now r = record r { started_at = put b now r.started_at }

unfoldable pub set_live_count : ℕ → Redis → Redis
unfolding put
set_live_count b r = record r { live_count = put b (pos 1) r.live_count }

unfoldable pub get_live_count : ℕ → Redis → Option ℤ
unfolding get
get_live_count b r = get b r.live_count

unfoldable pub increment_live_count : ℕ → Redis → ℤ × Redis
unfolding add_or
increment_live_count b r = add_or (pos 1) (pos 1) b r

unfoldable pub delete_live_count : ℕ → Redis → Redis
unfolding erase
delete_live_count b r = record r { live_count = erase b r.live_count }

unfoldable pub delete_host_grace : ℕ → Redis → Redis
unfolding erase
delete_host_grace b r = record r { host_grace = erase b r.host_grace }

unfoldable pub decrement_live_count : ℕ → Redis → ℤ × Redis
unfolding add_or delete_live_count is_zero larger
decrement_live_count b r =
    let done = add_or (pos 0) (negsuc 0) b r in
    let remaining = larger done.0 (pos 0) in
    if is_zero remaining then (remaining, delete_live_count b done.1) else (remaining, done.1)

unfoldable pub clear_broadcast_cache : ℕ → Redis → Redis
unfolding erase
clear_broadcast_cache b r = record {
  live_count = erase b r.live_count;
  host_grace = erase b r.host_grace;
  started_at = erase b r.started_at;
}

-- What `remove_cohost` does to the count when it removes a listener: a key at 0 is left there.
unfoldable pub subtract_live_count : ℕ → Redis → ℤ × Redis
unfolding add_or larger
subtract_live_count b r =
    let done = add_or (pos 0) (negsuc 0) b r in (larger done.0 (pos 0), done.1)
