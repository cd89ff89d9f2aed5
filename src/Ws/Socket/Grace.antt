-- ===== src/Ws/Socket/Grace.antt =====
-- The grace period of a host: `handle_disconnect` and `handle_reconnect`, with `GracePeriodConfig` of model.rs, on the
-- keys in redis that they write. `hosted` is the active broadcast of a user. An instant is in seconds; the key of the
-- grace is kept with the instant at which redis drops it, the other keys do not expire here.
use meno.Prelude.{
  ℕ, ◌+◌, ltb, ◌≡◌, refl, inl, inr, Bool, true, false, Option, none, some, List, [], ◌∷◌, ◌==◌,
  if◌then◌else◌, Bool-cases, unwrap_or,
}
use meno.Prelude.Maps.{Map, get, put, erase}

pub record GracePeriodConfig : Type 0 where
  pub tier1_secs : ℕ
  pub tier2_secs : ℕ
  pub tier3_secs : ℕ
  pub tier4_plus_secs : ℕ

abbrev pub default_grace : GracePeriodConfig
default_grace = record { tier1_secs = 120; tier2_secs = 90; tier3_secs = 60; tier4_plus_secs = 30 }

unfoldable pub get_grace_seconds : GracePeriodConfig → ℕ → ℕ
get_grace_seconds g n =
    if n == 1
    then g.tier1_secs
    else if n == 2
    then g.tier2_secs
    else if n == 3
    then g.tier3_secs
    else g.tier4_plus_secs

-- What is published to a room, and the job that ends the broadcast unless the host comes back.
pub data Signal : Type 0 where
  host_disconnected : ℕ → ℕ → ℕ → Signal
  host_reconnected : ℕ → Signal
  end_job : ℕ → ℕ → Signal

pub record Grace : Type 0 where
  pub disconnect_count : Map ℕ
  pub host_grace : Map (ℕ × ℕ)
  pub grace_started : Map ℕ
  pub signals : List Signal

module _ (hosted : ℕ → Option ℕ) where
  unfoldable pub handle_disconnect : ℕ → ℕ → Bool → Grace → Grace
  unfolding get put get_grace_seconds
  handle_disconnect now u false s = s
  handle_disconnect now u true s = elim (hosted u) [
    | none ↦ s
    | some b ↦
        let count = unwrap_or (get b s.disconnect_count) 0 + 1 in
        let secs = get_grace_seconds default_grace count in
        record {
          disconnect_count = put b count s.disconnect_count;
          host_grace = put b (secs, now + secs) s.host_grace;
          grace_started = put b now s.grace_started;
          signals = end_job b u ∷ host_disconnected b secs count ∷ s.signals;
        }
  ]

  -- `exists` on the key of the grace.
  unfoldable pub was_in_grace : ℕ → Option (ℕ × ℕ) → Bool
  was_in_grace now none = false
  was_in_grace now (some e) = ltb now e.1

  unfoldable pub handle_reconnect : ℕ → ℕ → Grace → Grace
  unfolding get erase was_in_grace
  handle_reconnect now u s = elim (hosted u) [
    | none ↦ s
    | some b ↦
        if was_in_grace now (get b s.host_grace)
        then record s {
          host_grace = erase b s.host_grace;
          signals = host_reconnected b ∷ s.signals;
        }
        else s
  ]

  -- Losses of the connection, each with the instant at which the host is back.
  unfoldable pub back_and_forth : List (ℕ × ℕ) → ℕ → Grace → Grace
  unfolding handle_disconnect handle_reconnect
  back_and_forth [] u s = s
  back_and_forth ((gone, back) ∷ later) u s =
      back_and_forth later u (handle_reconnect back u (handle_disconnect gone u true s))

  back :
      (now u b : ℕ) (s : Grace)
      → hosted u ≡ some b
      → (handle_reconnect now u s).disconnect_count ≡ s.disconnect_count
  unfolding handle_reconnect
  back now u b s e = elim (Bool-cases (was_in_grace now (get b s.host_grace))) [
    | inl k ↦ rw (e, handle_reconnect) (rw k refl)
    | inr k ↦ rw (e, handle_reconnect) (rw k refl)
  ]
