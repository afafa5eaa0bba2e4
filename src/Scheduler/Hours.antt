-- ===== src/Scheduler/Hours.antt =====
-- Times of day of the form HH:MM.
use Prim.Native.Char.{Char, code}
use warmrunners.Base.{
  ℕ, ◌+◌, ◌-◌, ◌*◌, ◌≡◌, ◌<◌, refl, String, true, ◌&&◌, some, arith, ltb, leb, pos, ◌*ℤ◌,
  to_i64_pos, +ℤ-pos,
}
use warmrunners.Scheduler.{LocalTime, parse_hm, minutes, within_hhmm}
use warmrunners.Scheduler.Sscanf.{
  is_digit, is_space, skip_space, scan_digits, scan_unsigned, scan_signed, scan_int, expect_colon,
}

-- The text of four digits around a colon.
abbrev pub hhmm : Char → Char → Char → Char → String
hhmm a b c d = String.◌∷◌ a (String.◌∷◌ b (String.◌∷◌ ":" (String.◌∷◌ c (String.◌∷◌ d String.[]))))

abbrev pub two_digits : Char → Char → ℕ
two_digits a b = (code a - 48) * 10 + (code b - 48)

digit_no_space :
    (c : Char) (s : String)
    → is_digit c ≡ true
    → skip_space (String.◌∷◌ c s) ≡ some (String.◌∷◌ c s)
unfolding skip_space is_space
digit_no_space c s h = ground arith

scan_int_two :
    (a b : Char) (s : String)
    → is_digit a ≡ true
    → is_digit b ≡ true
    → scan_digits (two_digits a b) s ≡ (two_digits a b, s)
    → scan_int (String.◌∷◌ a (String.◌∷◌ b s)) ≡ some (pos (two_digits a b), s)
unfolding scan_int scan_signed scan_unsigned scan_digits
scan_int_two a b s ha hb stop = rw (digit_no_space a (String.◌∷◌ b s) ha, scan_int) (ground arith)

-- `parseHM` reads HH:MM as its two numbers.
pub parse_hm-hhmm :
    (a b c d : Char)
    → is_digit a ≡ true
    → is_digit b ≡ true
    → is_digit c ≡ true
    → is_digit d ≡ true
    → parse_hm (hhmm a b c d) ≡ (pos (two_digits a b), pos (two_digits c d))
unfolding parse_hm expect_colon scan_digits
parse_hm-hhmm a b c d ha hb hc hd =
    rw
      (
        scan_int_two a b (String.◌∷◌ ":" (String.◌∷◌ c (String.◌∷◌ d String.[]))) ha hb refl,
        parse_hm,
      )
      (rw (scan_int_two c d String.[] hc hd refl, parse_hm) refl)

pub minutes-pos : (h m : ℕ) → h < 100 → m < 100 → minutes (pos h, pos m) ≡ pos (h * 60 + m)
unfolding minutes ◌*ℤ◌
minutes-pos h m hh hm =
    ground (arith, to_i64_pos (h * 60), to_i64_pos (h * 60 + m), +ℤ-pos (h * 60) m)

two_digits-lt : (a b : Char) → is_digit a ≡ true → is_digit b ≡ true → two_digits a b < 100
two_digits-lt a b ha hb = ground arith

-- At a time of day, a window between two times of the form HH:MM holds exactly the minutes from the
-- first on and before the second; so a window that would run over midnight holds none.
pub within_hhmm-hhmm :
    (t : LocalTime) (a b c d a' b' c' d' : Char)
    → is_digit a ≡ true
    → is_digit b ≡ true
    → is_digit c ≡ true
    → is_digit d ≡ true
    → is_digit a' ≡ true
    → is_digit b' ≡ true
    → is_digit c' ≡ true
    → is_digit d' ≡ true
    → t.hour < 24
    → t.minute < 60
    → within_hhmm t (hhmm a b c d) (hhmm a' b' c' d') ≡ (
        leb (two_digits a b * 60 + two_digits c d) (t.hour * 60 + t.minute)
        && ltb (t.hour * 60 + t.minute) (two_digits a' b' * 60 + two_digits c' d'))
unfolding within_hhmm
within_hhmm-hhmm t a b c d a' b' c' d' ha hb hc hd ha' hb' hc' hd' hh hm =
    rw
      (
        parse_hm-hhmm a b c d ha hb hc hd,
        parse_hm-hhmm a' b' c' d' ha' hb' hc' hd',
        minutes-pos t.hour t.minute (omega arith) (omega arith),
        minutes-pos (two_digits a b) (two_digits c d) (two_digits-lt a b ha hb)
            (two_digits-lt c d hc hd),
        minutes-pos (two_digits a' b') (two_digits c' d') (two_digits-lt a' b' ha' hb')
            (two_digits-lt c' d' hc' hd'),
      )
      (ground arith)
