-- ===== src/Pagination.antt =====
-- apps/api/src/shared/pagination.rs: cursors and pages.
-- A cursor is a text. base64 with UTF-8, the text of a UUID, the text of an f32 and the instants that
-- `time` accepts belong to other packages, or to the machine: they are the record `Formats`. A UUID is a number, an
-- instant is its nanoseconds since the epoch, an f32 is its bits.
pub mod Cursor
pub mod Page
pub mod Plain
mod Examples
use meno.Prelude.{
  ℕ, zero, suc, ◌+◌, ◌-◌, ◌*◌, ◌/◌, ◌%◌, ◌^◌, ◌≤◌, ◌<◌, ◌≡◌, refl, sym, ap, ◌∙◌, ◌≢◌, ◌↔◌, ◌⊎◌, inl,
  inr, Bool, true, false, not, ◌&&◌, ◌||◌, Option, none, some, List, [], ◌∷◌, ◌++◌, map, arith, ltb,
  leb, ◌==◌, if◌then◌else◌, ltb→lt, lt→ltb, leb→le, ==_iff, ==_self, tests, Bool-cases,
  Option-cases, is_some, unwrap_or, or_else, length, take, drop, last, replicate, All,
  length-append, take-append-drop, length-take, take_all, All-append, All-map_iff, length-map,
}
use meno.Prelude.Int.{ℤ, pos, negsuc}
use meno.Prelude.Texts.{Text}

pub record Formats : Type 0 where
  pub encode : Text → Text
  pub decode : Text → Option Text
  pub show_uuid : ℕ → Text
  pub parse_uuid : Text → Option ℕ
  pub is_instant : ℤ → Bool
  pub show_f32 : ℕ → Text
  pub parse_f32 : Text → Option ℕ

pub data CursorError : Type 0 where
  invalid_encoding invalid_shape invalid_timestamp : CursorError

-- The bounds of i128 and of i64.
abbrev pub i128_min : ℤ
i128_min = negsuc (2 ^ 127 - 1)

abbrev pub i128_max : ℤ
i128_max = pos (2 ^ 127 - 1)

abbrev pub i64_min : ℤ
i64_min = negsuc (2 ^ 63 - 1)

abbrev pub i64_max : ℤ
i64_max = pos (2 ^ 63 - 1)
