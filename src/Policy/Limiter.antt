-- ===== src/Policy/Limiter.antt =====
-- internal/policy/ratelimit.go: the fixed-window limiter of one IP, with its lazy sweep. Times are
-- nanoseconds; `last_gc` is `none` for Go's zero time, which is more than a minute ago. A negative
-- PerMinute acts as 0.
pub mod Window
use archive_relay.Prelude.{
  ℕ, ◌+◌, ◌*◌, ◌^◌, Bool, true, false, ◌||◌, Option, none, some, List, [], ◌∷◌, Bytes, eq_bytes,
  nat_eq, leb, lookup, put, ◌==◌, if◌then◌else◌,
}

pub record RlWindow : Type 0 where
  pub start : ℕ
  pub count : ℕ

pub record Limiter : Type 0 where
  pub counts : List (Bytes × RlWindow)
  pub last_gc : Option ℕ

abbrev pub minute : ℕ
minute = 60 * 10 ^ 9

abbrev pub new_limiter : Limiter
new_limiter = record { counts = []; last_gc = none }

abbrev pub is_expired : ℕ → RlWindow → Bool
is_expired now w = leb (w.start + minute) now

unfoldable pub current_window : ℕ → Option RlWindow → RlWindow
current_window now none = record { start = now; count = 0 }
current_window now (some w) = if is_expired now w then record { start = now; count = 0 } else w

abbrev pub gc_due : ℕ → Option ℕ → Bool
gc_due now none = true
gc_due now (some t) = leb (t + minute) now

unfoldable pub sweep : ℕ → List (Bytes × RlWindow) → List (Bytes × RlWindow)
sweep now [] = []
sweep now ((ip, w) ∷ m) =
    let rest = sweep now m in if is_expired now w then rest else (ip, w) ∷ rest

unfoldable pub lazy_gc : ℕ → Limiter → Limiter
lazy_gc now l =
    if gc_due now l.last_gc then record { counts = sweep now l.counts; last_gc = some now } else l

abbrev pub counted : ℕ → Option RlWindow → RlWindow
counted now o = record {
  start = (current_window now o).start;
  count = (current_window now o).count + 1;
}

unfoldable pub allow : ℕ → ℕ → Bytes → Limiter → Bool × Limiter
allow per_minute now ip l =
    let w = counted now (lookup ip l.counts) in
    if nat_eq per_minute 0 || ip == []
    then (true, l)
    else (leb w.count per_minute, lazy_gc now (record l { counts = put ip w l.counts }))

-- The hooks; true is a rejection.
unfoldable pub reject_rate : ℕ → ℕ → Bytes → Limiter → Bool × Limiter
reject_rate per_minute now ip l =
    let r = allow per_minute now ip l in (if r.0 then false else true, r.1)
