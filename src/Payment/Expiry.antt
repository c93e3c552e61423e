-- ===== src/Payment/Expiry.antt =====
-- When a card has expired: the months since the year 0 against the calendar.
use opentelemetry_demo_mb3r.Prelude.{
  ℕ, ◌+◌, ◌*◌, ◌≤◌, ℤ, pos, ◌+ℤ◌, ◌*ℤ◌, ◌≤ℤ◌, ◌<ℤ◌, ◌≡◌, ◌↔◌, true, some, ◌⊎◌, inl, inr, int_laws,
  arith, ltb→lt, false, Bool-cases, eq_of_parts, subst, sym,
}
use opentelemetry_demo_mb3r.Payment.{is_expired, is_less}

-- The month lies before the current one.
abbrev pub IsBefore : ℤ → ℤ → ℕ → ℕ → Type 0
IsBefore year month current_year current_month =
    (year <ℤ pos current_year) ⊎ ((year ≡ pos current_year) × (month <ℤ pos current_month))

is_less-lt : (a b : ℤ) → is_less a b ≡ true → a <ℤ b
is_less-lt a b h = ltb→lt _ _ h

lt-is_less : (a b : ℤ) → a <ℤ b → is_less a b ≡ true
lt-is_less a b h = ground arith

not_less : (a b : ℤ) → is_less a b ≡ false → b ≤ℤ a
not_less a b h = ground arith

this_year : (a : ℤ) (n : ℕ) → pos n ≤ℤ a → a ≤ℤ pos n → a ≡ pos n
this_year a n h k = eq_of_parts a (pos n) (omega arith)

month-IsBefore :
    (year month : ℤ) (y m : ℕ)
    → pos 1 ≤ℤ month
    → m ≤ 12
    → year *ℤ pos 12 +ℤ month <ℤ pos (y * 12 + m)
    → IsBefore year month y m
month-IsBefore year month y m low high h = elim (Bool-cases (is_less year (pos y))) [
  | inl e ↦ inl (is_less-lt year (pos y) e)
  | inr e ↦
      let later = not_less year (pos y) e in
      inr (this_year year y later (omega int_laws), omega int_laws)
]

IsBefore-lt :
    (year month : ℤ) (y m : ℕ)
    → month ≤ℤ pos 12
    → 1 ≤ m
    → IsBefore year month y m
    → year *ℤ pos 12 +ℤ month <ℤ pos (y * 12 + m)
IsBefore-lt year month y m high low (inl h) = omega int_laws
IsBefore-lt year month y m high low (inr (e, h)) =
    subst (λ v. v *ℤ pos 12 +ℤ month <ℤ pos (y * 12 + m)) (sym e) (omega int_laws)

-- If the current month and the card's are numbers from 1 to 12, then the card has expired exactly if
-- its year is an earlier one, or it is this year and its month is an earlier one.
pub is_expired_lem :
    (year month : ℤ) (current_year current_month : ℕ)
    → pos 1 ≤ℤ month
    → month ≤ℤ pos 12
    → 1 ≤ current_month
    → current_month ≤ 12
    → (is_expired current_year current_month (some year) (some month) ≡ true)
      ↔ IsBefore year month current_year current_month
unfolding is_expired
is_expired_lem year month current_year current_month a b c d = (
  λ h.
      month-IsBefore year month current_year current_month a d
        (is_less-lt (year *ℤ pos 12 +ℤ month) (pos (current_year * 12 + current_month)) h),
  λ h.
      lt-is_less (year *ℤ pos 12 +ℤ month) (pos (current_year * 12 + current_month))
        (IsBefore-lt year month current_year current_month b c h),
)
