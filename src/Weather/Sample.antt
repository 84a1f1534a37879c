-- ===== src/Weather/Sample.antt =====
-- A network that answers, a file of one pass, and the colours of whole numbers, for the tests.
use mathlib.Core.Path.{subst}
use mathlib.Core.Option.{some-injective, some-ne-none}
use c_client.Prelude.{
  ℕ, zero, suc, ◌+◌, ◌<◌, ◌≤◌, ◌≡◌, refl, ap, sym, ◌∙◌, true, some, none, List, [], ◌∷◌, ◌++◌,
  arith, length, length-take, take, drop, get_elem?, replicate, codes, same_text, if◌then◌else◌,
}
use c_client.Prelude.Int.{pos}
use c_client.Extension.{Double, Pixel}
use c_client.Sunrise.Sample.{whole, encode, decode, length-write_number}
use c_client.ApiManager.{Bytes, Internet, Json, Traffic, has_nul}
use c_client.ApiManager.Request.{Terminated}
use c_client.Weather.Palette.{set_temp_pixel_colour}
use c_client.Weather.Palette.Colours.{set_temp_pixel_colour-some}
use c_client.Weather.Lines.{TempLine, IsTempLine, write_line}
use c_client.Weather.Place.{AreTemps}

abbrev pub answer_text : Bytes
answer_text = codes "{\"main\":{\"temp\":290}}"

-- Names are known, connections accepted, requests taken whole and answered.
abbrev pub internet : Internet
internet = record {
  gethostbyname = λ host call. true;
  socket = λ call. pos 5;
  connect = λ call. true;
  write = λ call n. pos n;
  read = λ call n. some (take n answer_text);
  read_bounded = λ call n bs e.
      subst (λ b. length b ≤ n) (some-injective (take n answer_text) bs e)
        (omega (arith, length-take n answer_text));
  close = λ call. true;
}

-- A JSON library that knows this answer.
abbrev pub library : Json (Unit {0}) (Unit {0})
library = record {
  parse_string = λ text. if same_text text answer_text then some tt else none;
  is_object = λ v. true;
  as_object = λ v. some tt;
  get_object = λ o name. some tt;
  get_number = λ o name. encode (pos 290);
  get_string = λ o name. some answer_text;
}

abbrev pub fresh_traffic : Traffic
fresh_traffic = record { calls = 0; opened = []; sent = []; closed = [] }

abbrev pub print_zero : Double → Bytes
print_zero d = codes "0.000000"

abbrev pub room : ℕ → Bytes
room n = replicate n 0

pub room-Terminated : Terminated internet (room 300) (room 600)
unfolding has_nul
room-Terminated = record {
  size = refl;
  untouched = refl;
  answered = λ call bs e.
      subst (λ b. has_nul (b ++ drop (length b) (room 600)) ≡ true)
        (some-injective answer_text bs e) refl;
}

pub any_colour : (d : Double) → (pixel : Pixel) × (set_temp_pixel_colour whole d ≡ some pixel)
any_colour = set_temp_pixel_colour-some whole (λ x. (decode x, refl))

-- The line of a position, and the lines from one on.
abbrev pub temp_at : ℕ → TempLine
temp_at i = record { loc = i; value = codes "290" }

unfoldable pub temps_at : ℕ → ℕ → List TempLine
temps_at zero i = []
temps_at (suc n) i = temp_at i ∷ temps_at n (i + 1)

length-temps_at : (n i : ℕ) → length (temps_at n i) ≡ n
unfolding temps_at
length-temps_at zero i = refl
length-temps_at (suc n) i = ap suc (length-temps_at n (i + 1))

get_elem?-temps_at :
    (n i j : ℕ) (l : TempLine)
    → get_elem? (temps_at n i) j ≡ some l
    → (l ≡ temp_at (i + j)) × (j < n)
unfolding temps_at
get_elem?-temps_at zero i zero l e = elim (some-ne-none l (sym e)) [ ]
get_elem?-temps_at zero i (suc j) l e = elim (some-ne-none l (sym e)) [ ]
get_elem?-temps_at (suc n) i zero l e =
    let at : i + 0 ≡ i = omega arith in
    (sym (some-injective (temp_at i) l e) ∙ ap temp_at (sym at), omega arith)
get_elem?-temps_at (suc n) i (suc j) l e =
    let (is, small) = get_elem?-temps_at n (i + 1) j l e in
    let at : i + 1 + j ≡ i + suc j = omega arith in (is ∙ ap temp_at at, omega arith)

abbrev pub all_temps : List TempLine
all_temps = temps_at 471 0

entry_of : (i : ℕ) (l : TempLine) → get_elem? all_temps i ≡ some l → (l ≡ temp_at i) × (i < 471)
entry_of i l e =
    let (is, small) = get_elem?-temps_at 471 0 i l e in
    let at : 0 + i ≡ i = omega arith in (is ∙ ap temp_at at, small)

temp_at-fits : (i : ℕ) → i < 1000 → length (write_line (temp_at i) []) < 49
unfolding write_line
temp_at-fits i small = let three = length-write_number i (codes " 290") small in omega arith

temp_at-IsTempLine : (i : ℕ) → i < 1000 → IsTempLine (temp_at i)
temp_at-IsTempLine i small = record {
  loc = omega arith;
  one_line = ((λ e. omega arith), ((λ e. omega arith), ((λ e. omega arith), tt)));
  one_token = ((λ e. omega arith), ((λ e. omega arith), ((λ e. omega arith), tt)));
  no_nul = ((λ e. omega arith), ((λ e. omega arith), ((λ e. omega arith), tt)));
  fits = temp_at-fits i small;
}

-- `atof` on the file's values.
abbrev pub atof : Bytes → Double
atof text = encode (pos 290)

pub all_temps-AreTemps : AreTemps whole atof all_temps
all_temps-AreTemps = record {
  passes = 1;
  size = length-temps_at 471 0;
  some_pass = omega arith;
  loc = λ i l e. let (is, small) = entry_of i l e in ap (λ m. m.loc) is ∙ omega arith;
  lines = λ i l e.
      let (is, small) = entry_of i l e in
      subst IsTempLine (sym is) (temp_at-IsTempLine i (omega arith));
  colours = λ i l e. any_colour (encode (pos 290));
}
