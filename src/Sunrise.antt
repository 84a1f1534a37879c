-- ===== src/Sunrise.antt =====
-- src/effects/sunrise.c: the brightness of a pixel from the times of sunrise and sunset there.
pub mod Clocks
pub mod Frames
pub mod Lines
pub mod Brightness
pub mod Painted
pub mod Sample
mod Tests
use c_client.Prelude.{
  ℕ, zero, suc, ◌+◌, ◌-◌, ◌*◌, ◌%◌, ◌^◌, Bool, true, false, Option, none, some, ◌&&◌, List, [], ◌∷◌,
  ltb, leb, ◌==◌, if◌then◌else◌, ◌>>=◌, store, c_string,
}
use c_client.Prelude.Int.{ℤ, pos, negsuc, pos_part, neg_part, sub_ℕ, eq_ℤ}
use c_client.Extension.{Double, Pixel, rgb, PixelInfo, num_pixels}
use c_client.Floats.{Floats, number_of, to_uint8}
use c_client.Strtol.{atoi}
use c_client.Strings.{strtok, fgets}
use c_client.Pixel.{GridMemory}
use c_client.Opc.{Client, Kernel, opc_put_pixel_list}

-- `struct tm`, its three fields that are used.
pub record Time : Type 0 where
  pub hour : ℤ
  pub min : ℤ
  pub sec : ℤ

-- The current time, whose fields begin at 0.
pub record Clock : Type 0 where
  pub hour : ℕ
  pub min : ℕ
  pub sec : ℕ

abbrev pub time_of : Clock → Time
time_of c = record { hour = pos c.hour; min = pos c.min; sec = pos c.sec }

-- `sun_state_t`: what the file holds, and what is left of it to read.
pub record SunState : Type 0 where
  pub content : List ℕ
  pub sun_file : List ℕ
  pub current_time : Clock

pub increment_current_time : Clock → Clock
increment_current_time c =
    if c.min + 10 == 60
    then record c { min = 0; hour = if c.hour + 1 == 24 then 0 else c.hour + 1 }
    else record c { min = c.min + 10 }

-- A value of type `int`; an overflow is a fault.
int_ok : ℤ → Option ℤ
int_ok z = if ltb (pos_part z) (2 ^ 31) && leb (neg_part z) (2 ^ 31) then some z else none

times : ℕ → ℤ → ℤ
times k z = sub_ℕ (k * pos_part z) (k * neg_part z)

add_ℤ : ℤ → ℤ → ℤ
add_ℤ a b = sub_ℕ (pos_part a + pos_part b) (neg_part a + neg_part b)

-- The `int` of `get_seconds_for_time`.
pub seconds : Time → Option ℤ
unfolding int_ok times add_ℤ
seconds t = int_ok (times 3600 t.hour) >>= λ hours. int_ok (times 60 t.min) >>= λ mins.
    int_ok (add_ℤ hours mins) >>= λ both. int_ok (add_ℤ both t.sec)

-- (set > PIXEL_COLOUR_MAX) ? (PIXEL_COLOUR_MAX) - set : set
pub fold_back : ℤ → ℤ
fold_back (pos n) = if ltb 255 n then sub_ℕ 255 n else pos n
fold_back (negsuc n) = negsuc n

module _ (fl : Floats) where
  pub get_time_difference : Time → Time → Option Double
  unfolding seconds
  get_time_difference first second =
      seconds first >>= λ a. seconds second >>= λ b. some (fl.sub (fl.of_int a) (fl.of_int b))

  -- The three assignments to `set`: `part` is how far the time is from the night.
  pub shade_of : Double → Double → Option ℤ
  unfolding fold_back
  shade_of part daylight =
      fl.to_int (fl.mul (fl.div part (fl.div daylight (number_of fl 2))) (number_of fl 255))
      >>= λ set. some (fold_back set)

  -- The branch in which the sun rises before it sets.
  day_within : Time → Time → Time → Double → Option ℤ
  unfolding get_time_difference shade_of
  day_within sunrise sunset now daylight = get_time_difference sunrise now >>= λ before_sunrise.
      if fl.lt before_sunrise (number_of fl 0)
      then (get_time_difference sunset now >>= λ before_sunset.
          if fl.lt (number_of fl 0) before_sunset
          then shade_of before_sunset daylight
          else some (pos 0))
      else some (pos 0)

  -- The branch in which it sets first.
  day_around : Time → Time → Time → Double → Option ℤ
  unfolding get_time_difference shade_of
  day_around sunrise sunset now daylight = get_time_difference sunset now >>= λ before_sunset.
      let longer = fl.add daylight (number_of fl 86400) in
      if fl.lt (number_of fl 0) before_sunset
      then shade_of before_sunset longer
      else (get_time_difference sunrise now >>= λ before_sunrise.
          if fl.lt before_sunrise (number_of fl 0)
          then shade_of (fl.neg before_sunrise) longer
          else some (pos 0))

  -- The value of `set` in `sun_get_pixel`.
  unfoldable pub brightness : Time → Time → Time → Option ℤ
  unfolding get_time_difference day_within day_around
  brightness sunrise sunset now = get_time_difference sunset sunrise >>= λ daylight.
      if fl.eq daylight (number_of fl 0)
      then some (pos 0)
      else if fl.lt (number_of fl 0) daylight
      then day_within sunrise sunset now daylight
      else day_around sunrise sunset now daylight

-- `atoi` of the next token; a NULL token is a fault.
next_number : ℕ → List ℕ → Option (ℤ × List ℕ)
unfolding strtok
next_number d text = strtok d text >>= λ (token, rest). some (atoi token, rest)

next_time : List ℕ → Option (Time × List ℕ)
unfolding next_number
next_time text = next_number b':' text >>= λ (h, t1). next_number b':' t1 >>= λ (m, t2).
    next_number b' ' t2 >>= λ (s, t3). some (record { hour = h; min = m; sec = s }, t3)

-- The position and the times of a line.
unfoldable pub parse_line : List ℕ → Option (ℤ × (Time × Time))
unfolding next_time next_number
parse_line line = next_number b' ' line >>= λ (loc, t1).
    next_time t1 >>= λ (sunrise, t2). next_time t2 >>= λ (sunset, t3). some (loc, (sunrise, sunset))

-- The next line of the file, which begins again at its end. When the file is empty the buffer would
-- be read as it is: a fault.
unfoldable pub read_line : SunState → Option (List ℕ × SunState)
unfolding fgets
read_line st = elim (fgets 40 st.sun_file) [
  | some (line, rest) ↦ some (line, record st { sun_file = rest })
  | none ↦ fgets 40 st.content >>= λ (line, rest). some (line, record st { sun_file = rest })
]

abbrev pub grey : ℤ → Pixel
grey set = rgb (to_uint8 set) (to_uint8 set) (to_uint8 set)

unfoldable pub sun_get_pixel :
    Floats → ℕ → SunState → List Pixel → Option (ℤ × (SunState × List Pixel))
unfolding store
sun_get_pixel fl i st frame = read_line st >>= λ (line, st').
    parse_line (c_string line) >>= λ (loc, (sunrise, sunset)).
    if eq_ℤ loc (pos i)
    then (brightness fl sunrise sunset (time_of st'.current_time) >>= λ set.
        store frame i (grey set) >>= λ frame'. some (pos 0, (st', frame')))
    else some (negsuc 0, (st', frame))

-- The runner's fields that `sunrise_run` changes, and the client.
pub record SunRunner : Type 0 where
  pub state : SunState
  pub frame : List Pixel
  pub frame_no : ℕ
  pub client : Client

-- The layout and the memory of opc_put_pixel_list. The first component is the returned value.
module _ (fl : Floats) (k : Kernel) (sink : ℤ) (infos : List PixelInfo) (strips : GridMemory)
    (zeroed : Bool) where
  advance : SunRunner → SunRunner
  unfolding increment_current_time
  advance r = record r {
    state = record r.state { current_time = increment_current_time r.state.current_time };
    frame_no = 0;
  }

  unfoldable pub sunrise_run : SunRunner → Option (ℕ × SunRunner)
  unfolding advance
  sunrise_run r =
      if leb num_pixels r.frame_no
      then (sun_get_pixel fl 0 r.state r.frame >>= λ (_, (st, frame)).
          let r1 = advance (record r { state = st; frame = frame }) in
          opc_put_pixel_list k sink frame infos strips zeroed r1.client >>= λ (result, c).
          some (if result == 0 then 1 else 0, record r1 { client = c }))
      else (sun_get_pixel fl r.frame_no r.state r.frame >>= λ (_, (st, frame)).
          some (0, record r { state = st; frame = frame }))

-- The state that `get_sun_effect` makes when the file opens.
unfoldable pub get_sun_effect : List ℕ → SunState
get_sun_effect content = record {
  content = content;
  sun_file = content;
  current_time = record { hour = 0; min = 0; sec = 0 };
}
