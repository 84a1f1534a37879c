-- ===== src/Sunrise/Sample.antt =====
-- A file of 471 places where the sun rises at 6 and sets at 18 o'clock, and whole numbers for doubles.
use mathlib.Core.Path.{subst}
use mathlib.Core.Option.{some-injective, some-ne-none}
use c_client.Prelude.{
  ℕ, zero, suc, ◌+◌, ◌*◌, ◌/◌, ◌%◌, ◌<◌, ◌≤◌, ◌≡◌, refl, ap, sym, ◌∙◌, inl, inr, Bool-cases, some,
  List, [], ◌∷◌, arith, length, get_elem?, ltb, ◌==◌, if◌then◌else◌, codes,
}
use c_client.Prelude.Int.{ℤ, pos, negsuc, pos_part, neg_part, sub_ℕ, eq_ℤ, ltb_ℤ}
use c_client.Extension.{Double}
use c_client.Strtol.Decimal.{digits}
use c_client.Strtol.Atoi.{write_number}
use c_client.Floats.{Floats}
use c_client.Sunrise.{Clock, time_of, brightness}
use c_client.Sunrise.Lines.{SunLine, IsSunLine, write_time, write_line}
use c_client.Sunrise.Brightness.{Exact, InDay, brightness-some}
use c_client.Sunrise.Clocks.{IsClock}
use c_client.Sunrise.Frames.{AreLines}

-- Whole numbers in place of doubles, even for those that are not negative.
abbrev pub encode : ℤ → Double
encode (pos n) = 2 * n
encode (negsuc n) = 2 * n + 1

abbrev pub decode : Double → ℤ
decode m = if m % 2 == 0 then pos (m / 2) else negsuc (m / 2)

decode-encode : (z : ℤ) → decode (encode z) ≡ z
decode-encode (pos n) = ground arith
decode-encode (negsuc n) = ground arith

abbrev pub plus : ℤ → ℤ → ℤ
plus a b = sub_ℕ (pos_part a + pos_part b) (neg_part a + neg_part b)

abbrev pub opposite : ℤ → ℤ
opposite a = sub_ℕ (neg_part a) (pos_part a)

abbrev pub whole : Floats
whole = record {
  of_int = encode;
  add = λ a b. encode (plus (decode a) (decode b));
  sub = λ a b. encode (plus (decode a) (opposite (decode b)));
  mul = λ a b. encode (pos (pos_part (decode a) * pos_part (decode b)));
  div = λ a b. encode (pos (pos_part (decode a) / pos_part (decode b)));
  neg = λ a. encode (opposite (decode a));
  eq = λ a b. eq_ℤ (decode a) (decode b);
  lt = λ a b. ltb_ℤ (decode a) (decode b);
  to_int = λ a. some (decode a);
}

plus-opposite : (a b : ℕ) → plus (pos a) (opposite (pos b)) ≡ sub_ℕ a b
plus-opposite a b = ground arith

plus-sub_ℕ : (a b c : ℕ) → plus (sub_ℕ a b) (pos c) ≡ sub_ℕ (a + c) b
plus-sub_ℕ a b c = ground arith

opposite-sub_ℕ : (a b : ℕ) → opposite (sub_ℕ a b) ≡ sub_ℕ b a
opposite-sub_ℕ a b = ground arith

eq_ℤ-sub_ℕ : (a b : ℕ) → eq_ℤ (sub_ℕ a b) (pos 0) ≡ (a == b)
eq_ℤ-sub_ℕ a b = ground arith

ltb_ℤ-sub_ℕ : (a b : ℕ) → ltb_ℤ (sub_ℕ a b) (pos 0) ≡ ltb a b
ltb_ℤ-sub_ℕ a b = ground arith

ltb_ℤ-zero : (a b : ℕ) → ltb_ℤ (pos 0) (sub_ℕ a b) ≡ ltb b a
ltb_ℤ-zero a b = ground arith

pub whole-Exact : Exact whole
whole-Exact = record {
  sub = λ a b p q. rw (decode-encode (pos a), decode-encode (pos b), plus-opposite a b) refl;
  add = λ a b c p q. rw (decode-encode (sub_ℕ a b), decode-encode (pos c), plus-sub_ℕ a b c) refl;
  neg = λ a b p q. rw (decode-encode (sub_ℕ a b), opposite-sub_ℕ a b) refl;
  is_zero = λ a b p q. rw (decode-encode (sub_ℕ a b)) (eq_ℤ-sub_ℕ a b);
  is_negative = λ a b p q. rw (decode-encode (sub_ℕ a b)) (ltb_ℤ-sub_ℕ a b);
  is_positive = λ a b p q. rw (decode-encode (sub_ℕ a b)) (ltb_ℤ-zero a b);
}

abbrev pub o_clock : ℕ → Clock
o_clock h = record { hour = h; min = 0; sec = 0 }

pub o_clock-InDay : (h : ℕ) → h < 24 → InDay (o_clock h)
o_clock-InDay h small = record { hour = small; min = omega arith; sec = omega arith }

-- The line of a position.
abbrev pub line_at : ℕ → SunLine
line_at i = record { loc = i; sunrise = o_clock 6; sunset = o_clock 18 }

abbrev power_of_ten : ℕ → ℕ
power_of_ten zero = 1
power_of_ten (suc k) = 10 * power_of_ten k

length-digits :
    (k f n : ℕ) (rest : List ℕ) → n < power_of_ten k → length (digits f n rest) ≤ k + length rest
unfolding digits
length-digits k zero n rest small = omega arith
length-digits zero (suc f) n rest small =
    let none_left : n ≡ 0 = omega (arith, small) in rw none_left (omega arith)
length-digits (suc k) (suc f) n rest small = elim (Bool-cases (n == 0)) [
  | inl done ↦ rw done (omega arith)
  | inr more ↦
      let fewer : n / 10 < power_of_ten k = omega (arith, small) in
      rw more (omega (arith, length-digits k f (n / 10) ((b'0' + n % 10) ∷ rest) fewer))
]

pub length-write_number :
    (n : ℕ) (rest : List ℕ) → n < 1000 → length (write_number n rest) ≤ 3 + length rest
unfolding write_number
length-write_number n rest small = elim (Bool-cases (n == 0)) [
  | inl is_zero ↦ rw is_zero (omega arith)
  | inr positive ↦ rw positive (length-digits 3 n n rest (omega arith))
]

abbrev times_text : List ℕ
times_text = codes " 6:0:0 18:0:0"

length-write_line : (i : ℕ) → i < 1000 → length (write_line (line_at i) []) < 39
unfolding write_line write_time write_number digits
length-write_line i small = let three = length-write_number i times_text small in omega arith

pub line_at-IsSunLine : (i : ℕ) → i < 1000 → IsSunLine (line_at i)
line_at-IsSunLine i small = record {
  loc = omega arith;
  sunrise = record { hour = omega arith; min = omega arith; sec = omega arith };
  sunset = record { hour = omega arith; min = omega arith; sec = omega arith };
  fits = length-write_line i small;
}

-- The lines from a position on.
unfoldable pub lines_at : ℕ → ℕ → List SunLine
lines_at zero i = []
lines_at (suc n) i = line_at i ∷ lines_at n (i + 1)

length-lines_at : (n i : ℕ) → length (lines_at n i) ≡ n
unfolding lines_at
length-lines_at zero i = refl
length-lines_at (suc n) i = ap suc (length-lines_at n (i + 1))

get_elem?-lines_at :
    (n i j : ℕ) (l : SunLine)
    → get_elem? (lines_at n i) j ≡ some l
    → (l ≡ line_at (i + j)) × (j < n)
unfolding lines_at
get_elem?-lines_at zero i zero l e = elim (some-ne-none l (sym e)) [ ]
get_elem?-lines_at zero i (suc j) l e = elim (some-ne-none l (sym e)) [ ]
get_elem?-lines_at (suc n) i zero l e =
    let at : i + 0 ≡ i = omega arith in
    (sym (some-injective (line_at i) l e) ∙ ap line_at (sym at), omega arith)
get_elem?-lines_at (suc n) i (suc j) l e =
    let (is, small) = get_elem?-lines_at n (i + 1) j l e in
    let at : i + 1 + j ≡ i + suc j = omega arith in (is ∙ ap line_at at, omega arith)

abbrev pub all_lines : List SunLine
all_lines = lines_at 471 0

entry_of : (i : ℕ) (l : SunLine) → get_elem? all_lines i ≡ some l → (l ≡ line_at i) × (i < 471)
entry_of i l e =
    let (is, small) = get_elem?-lines_at 471 0 i l e in
    let at : 0 + i ≡ i = omega arith in (is ∙ ap line_at at, small)

IsClock-InDay : (c : Clock) → IsClock c → InDay c
IsClock-InDay c is = record {
  hour = is.hour;
  min = omega (arith, is.min, is.small);
  sec = omega (arith, is.sec);
}

pub all_lines-AreLines : AreLines whole all_lines
all_lines-AreLines = record {
  size = length-lines_at 471 0;
  loc = λ i l e. ap (λ m. m.loc) (entry_of i l e).0;
  lines = λ i l e.
      let (is, small) = entry_of i l e in
      subst IsSunLine (sym is) (line_at-IsSunLine i (omega arith));
  shades = λ i l c e is.
      let (same, small) = entry_of i l e in
      subst
        (λ m.
          (z : ℤ) × (brightness whole (time_of m.sunrise) (time_of m.sunset) (time_of c) ≡ some z))
        (sym same)
        (brightness-some whole whole-Exact (o_clock 6) (o_clock 18) c
          (o_clock-InDay 6 (omega arith)) (o_clock-InDay 18 (omega arith)) (IsClock-InDay c is)
          (λ x. (decode x, refl)));
}
