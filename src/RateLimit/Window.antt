-- ===== src/RateLimit/Window.antt =====
-- The windows of ratelimit.go: which checks share a counter, when the window ends, and how long the
-- counter lives.
use traefik_plugin.Base.{
  ℕ, suc, ◌+◌, ◌-◌, ◌*◌, ◌/◌, ◌%◌, ◌≤◌, ◌<◌, some, Bytes, codes, ◌≡◌, ◌↔◌, sym, ap, ◌∙◌, subst,
  arith,
}
use mathlib.Core.List.{append_cancel_left}
use native.Mathlib.Nat.{div-add-mod', mod-lt, eq_of_mul-eq-mul_right}
use traefik_plugin.Base.Int.{ℤ, pos, sub_ℕ, floor_div, format_int, wrap, ◌+ℤ◌, scale}
use traefik_plugin.Base.Decimal.{max_int64, IsInt64, parse_int}
use traefik_plugin.Base.DecimalLaws.{parse_int-format_int}
use traefik_plugin.RateLimit.{second, epoch, window_of, window_start, window_key, ttl_seconds}

-- The windows between year 1 and the instant now.
abbrev pub window_index : ℕ → ℕ → ℕ
window_index now w = (now + epoch) / w

window_start_lem :
    (now w : ℕ) → 0 < w → window_start now (pos w) ≡ sub_ℕ (window_index now w * w) epoch
unfolding window_start
window_start_lem now w h = ground (arith, div-add-mod' (now + epoch) w, mod-lt (now + epoch) h)

floor_div-sub : (a b : ℕ) → floor_div (sub_ℕ (a * second) (b * second)) second ≡ sub_ℕ a b
floor_div-sub a b = ground arith

sub_ℕ_inj : (a b c : ℕ) → sub_ℕ a c ≡ sub_ℕ b c → a ≡ b
sub_ℕ_inj a b c h = ground arith

some_inj : {A : Type 0} {a b : A} → some a ≡ some b → a ≡ b
some_inj h = cc

format_int_inj : (a b : ℤ) → IsInt64 a → IsInt64 b → format_int a ≡ format_int b → a ≡ b
format_int_inj a b ok ok' h =
    some_inj (sym (parse_int-format_int a ok) ∙ ap parse_int h ∙ parse_int-format_int b ok')

pub window_of-pos : (n : ℕ) → n * second ≤ max_int64 → window_of (pos n) ≡ pos (n * second)
unfolding window_of wrap
window_of-pos n h = ground arith

pub ttl_seconds-window :
    (n : ℕ) → suc n * second ≤ max_int64 → ttl_seconds (pos (n * second)) ≡ pos (suc n)
unfolding ttl_seconds wrap
ttl_seconds-window n h = ground arith

window_key-start :
    (prefix key uid : Bytes) (a b : ℤ)
    → IsInt64 (floor_div a second)
    → IsInt64 (floor_div b second)
    → window_key prefix key uid a ≡ window_key prefix key uid b
    → floor_div a second ≡ floor_div b second
unfolding window_key
window_key-start prefix key uid a b ok ok' h =
    let behind_prefix = append_cancel_left prefix _ _ h in
    let behind_key = append_cancel_left key _ _ behind_prefix in
    let behind_uid = append_cancel_left uid _ _ (append_cancel_left (codes ":") _ _ behind_key) in
    format_int_inj _ _ ok ok' (append_cancel_left (codes ":") _ _ behind_uid)

-- An index of a window is the second it starts in.
start_second :
    (now n : ℕ)
    → 0 < n
    → floor_div (window_start now (pos (n * second))) second
      ≡ sub_ℕ (window_index now (n * second) * n) 62135596800
start_second now n h =
    ap (λ z. floor_div z second)
      (window_start_lem now (n * second) (omega (arith, h)) ∙ ap (λ x. sub_ℕ x epoch) (omega arith))
    ∙ floor_div-sub (window_index now (n * second) * n) 62135596800

sub_ℕ-IsInt64 :
    (x now : ℕ) → x * second ≤ now + epoch → now ≤ max_int64 → IsInt64 (sub_ℕ x 62135596800)
sub_ℕ-IsInt64 x now h fits = ground arith

start_second-IsInt64 :
    (now n : ℕ)
    → 0 < n
    → now ≤ max_int64
    → IsInt64 (floor_div (window_start now (pos (n * second))) second)
start_second-IsInt64 now n h fits = subst IsInt64 (sym (start_second now n h)) (
    sub_ℕ-IsInt64 (window_index now (n * second) * n) now
      (omega (arith, div-add-mod' (now + epoch) (n * second))) fits)

-- The Redis key of a check at the instant now.
abbrev pub key_at : (prefix key uid : Bytes) (n now : ℕ) → Bytes
key_at prefix key uid n now = window_key prefix key uid (window_start now (window_of (pos n)))

-- Two checks of one key and endpoint, with a window of n seconds that fits in an int64, use the same
-- Redis key exactly when they fall in the same window, counted from year 1.
pub window_key-window_index_iff :
    (prefix key uid : Bytes) (n a b : ℕ)
    → 0 < n
    → n * second ≤ max_int64
    → a ≤ max_int64
    → b ≤ max_int64
    → (key_at prefix key uid n a ≡ key_at prefix key uid n b)
      ↔ (window_index a (n * second) ≡ window_index b (n * second))
window_key-window_index_iff prefix key uid n a b h fits in_a in_b = rw (window_of-pos n fits) (
  (λ same. eq_of_mul-eq-mul_right n h _ _ (
      sub_ℕ_inj _ _ 62135596800 (
        sym (start_second a n h)
        ∙ window_key-start prefix key uid _ _ (start_second-IsInt64 a n h in_a)
            (start_second-IsInt64 b n h in_b) same
        ∙ start_second b n h))),
  (λ same. ap (window_key prefix key uid) (
      window_start_lem a (n * second) (omega (arith, h))
      ∙ ap (λ i. sub_ℕ (i * (n * second)) epoch) same
      ∙ sym (window_start_lem b (n * second) (omega (arith, h))))),
)

-- A window that fits ends after the check, at most its own length later, and the counter that the
-- check gives a time to live outlives it.
pub window_start-ends :
    (now n : ℕ)
    → 0 < n
    → suc n * second ≤ max_int64
    → let window = window_of (pos n) in
      (left : ℕ) × (window_start now window +ℤ window ≡ pos (now + left))
      × (0 < left)
      × (left ≤ n * second)
      × (scale (ttl_seconds window) second ≡ pos (n * second + second))
unfolding window_start
window_start-ends now n h fits =
    let passed = (now + epoch) % (n * second) in
    let window_fits : window_of (pos n) ≡ pos (n * second) =
      window_of-pos n (omega (arith, fits)) in
    let early = mod-lt (now + epoch) {m = n * second} (omega (arith, h)) in
    rw (window_fits, ttl_seconds-window n fits)
      (n * second - passed, ground arith, omega arith, omega arith, ground arith)
