-- ===== src/Sunrise/Frames.antt =====
-- The place of `sunrise_run` in the file, frame by frame.
use native.Mathlib.Decide.{dec_lt}
use c_client.Prelude.{
  Bool, drop-get_elem?, drop-length, ℕ, suc, ◌+◌, ◌%◌, ◌<◌, ◌≤◌, ◌≡◌, refl, ap, sym, ◌∙◌, ◌⊎◌, inl,
  inr, true, false, some, List, [], ◌∷◌, ◌++◌, arith, length, length-set, drop, get_elem?,
  get_elem?-some, get_elem?-lt, leb, lt→ltb, ◌==◌, if◌then◌else◌, store, Returns, returns,
  Returns-bind,
}
use c_client.Prelude.Int.{ℤ, pos}
use c_client.Extension.{Pixel, PixelInfo, num_strips, max_strip_size}
use c_client.Pixel.{GridMemory}
use c_client.Pixel.Fill.{Given}
use c_client.Opc.{SinkInfo, Kernel, find_sink}
use c_client.Opc.Strips.Sizes.{AllWired}
use c_client.Opc.Strips.Organise.{Organised}
use c_client.Opc.Message.{Put, opc_put_pixel_list-Put}
use c_client.Floats.{Floats}
use c_client.Sunrise.{
  Clock, time_of, SunState, SunRunner, brightness, grey, sun_get_pixel, sunrise_run, advance,
}
use c_client.Sunrise.Lines.{
  SunLine, IsSunLine, write_line, write_lines, NextLine, sun_get_pixel-line,
}
use c_client.Sunrise.Clocks.{IsClock, minutes, increment-IsClock}

module _ (fl : Floats) (ls : List SunLine) where
  -- The lines of the positions in their order, for which the brightness is a number at any time.
  pub record AreLines : Type 0 where
    pub size : length ls ≡ 471
    pub loc : (i : ℕ) (l : SunLine) → get_elem? ls i ≡ some l → l.loc ≡ i
    pub lines : (i : ℕ) (l : SunLine) → get_elem? ls i ≡ some l → IsSunLine l
    pub shades :
        (i : ℕ) (l : SunLine) (c : Clock)
        → get_elem? ls i ≡ some l
        → IsClock c
        → (z : ℤ) × (brightness fl (time_of l.sunrise) (time_of l.sunset) (time_of c) ≡ some z)

  -- The effect reads the line of the pixel whose turn it is.
  pub record InStep (place : ℕ) (st : SunState) : Type 0 where
    pub content : st.content ≡ write_lines ls
    pub left : st.sun_file ≡ write_lines (drop place ls)
    pub clock : IsClock st.current_time

  module _ (are : AreLines) (place i : ℕ) (l : SunLine) (entry : get_elem? ls i ≡ some l) where
    NextLine-InStep :
        (st : SunState)
        → InStep place st
        → (place ≡ i) ⊎ ((place ≡ 471) × (i ≡ 0))
        → NextLine st l (write_lines (drop (suc i) ls))
    unfolding write_lines
    NextLine-InStep st step turn =
        let here : write_lines (drop i ls)
            ≡ write_line l [] ++ (b'\n' ∷ write_lines (drop (suc i) ls)) =
          ap write_lines (drop-get_elem? ls i l entry) in
        record {
          line = are.lines i l entry;
          next = elim turn [
            | inl same ↦ inl (step.left ∙ ap (λ n. write_lines (drop n ls)) same ∙ here)
            | inr (ended, first) ↦ inr (
              step.left
                  ∙ ap (λ n. write_lines (drop n ls)) ended
                  ∙ ap write_lines (drop-length 471 ls (omega (arith, are.size))),
              step.content ∙ ap (λ n. write_lines (drop n ls)) (sym first) ∙ here,
            )
          ];
        }

    -- The pixel is painted, and the effect goes on at the next line.
    pub record Passed (st : SunState) (result : ℤ × (SunState × List Pixel)) : Type 0 where
      pub code : result.0 ≡ pos 0
      pub step : InStep (suc i) result.1.0
      pub time : result.1.0.current_time ≡ st.current_time
      pub size : length result.1.1 ≡ 471

    sun_get_pixel-Passed :
        (st : SunState) (frame : List Pixel)
        → InStep place st
        → (place ≡ i) ⊎ ((place ≡ 471) × (i ≡ 0))
        → length frame ≡ 471
        → Returns (Passed st) (sun_get_pixel fl i st frame)
    unfolding store
    sun_get_pixel-Passed st frame step turn size =
        let (z, bright) = are.shades i l st.current_time entry step.clock in
        let inside : i < length frame = omega (arith, get_elem?-lt ls i entry, are.size, size) in
        rw
          (
            sun_get_pixel-line fl st l (write_lines (drop (suc i) ls))
                (NextLine-InStep st step turn) frame i z (are.loc i l entry) bright,
            lt→ltb i (length frame) inside,
          )
          (returns (record {
            code = refl;
            step = record { content = step.content; left = refl; clock = step.clock };
            time = refl;
            size = length-set frame i (grey z) ∙ size;
          }))

  -- A runner at the place of its frame's number.
  pub record Runs (place : ℕ) (r : SunRunner) : Type 0 where
    pub step : InStep place r.state
    pub frame : length r.frame ≡ 471
    pub frame_no : r.frame_no ≡ place
    pub bound : place ≤ 471

  module _ (k : Kernel) (sink : ℤ) (j : ℕ) (info : SinkInfo) (infos : List PixelInfo)
      (strips : GridMemory) where
    -- What `sunrise_run` leaves, before the main loop counts the frame: the place of the next frame,
    -- and after the last line the clock ten minutes later and the pixels sent.
    pub record Ran (r : SunRunner) (result : ℕ × SunRunner) : Type 0 where
      pub code : result.0 ≡ (if r.frame_no == 471 then 1 else 0)
      pub number : result.1.frame_no ≡ (if r.frame_no == 471 then 0 else r.frame_no)
      pub runs : Runs (suc result.1.frame_no) (record result.1 { frame_no = suc result.1.frame_no })
      pub time : minutes result.1.state.current_time ≡ (
          if r.frame_no == 471
          then (minutes r.state.current_time + 10) % 1440
          else minutes r.state.current_time)
      pub sent :
          r.frame_no ≡ 471
          → (out : List Pixel) × Organised result.1.frame infos out
            × (done : Bool) × Put k sink j info 0 471 out r.client (done, result.1.client)
      pub silent : r.frame_no < 471 → result.1.client ≡ r.client

  module _ (k : Kernel) (sink : ℤ) (j : ℕ) (info : SinkInfo) (infos : List PixelInfo)
      (strips : GridMemory) (are : AreLines) (wired : AllWired infos) (fits : length infos ≤ 471)
      (given : Given num_strips max_strip_size strips) where
    sunrise_run-on :
        (r : SunRunner)
        → Runs r.frame_no r
        → r.frame_no < 471
        → Returns (Ran k sink j info infos strips r) (sunrise_run fl k sink infos strips true r)
    unfolding sunrise_run
    sunrise_run-on r runs before =
        let (l, at) = get_elem?-some ls r.frame_no (omega (arith, are.size)) in
        let not_last : (r.frame_no == 471) ≡ false = ground arith in
        let more : leb 471 r.frame_no ≡ false = ground arith in
        rw (sunrise_run, more)
          (Returns-bind
            (sun_get_pixel-Passed are r.frame_no r.frame_no l at r.state r.frame runs.step
              (inl refl) runs.frame)
            λ result p. returns (record {
              code = rw not_last refl;
              number = rw not_last refl;
              runs = record { step = p.step; frame = p.size; frame_no = refl; bound = before };
              time = rw not_last (ap minutes p.time);
              sent = λ last. absurd (omega arith);
              silent = λ early. refl;
            }))

    sunrise_run-ended :
        (r : SunRunner)
        → Runs r.frame_no r
        → r.frame_no ≡ 471
        → find_sink sink r.client ≡ some j
        → get_elem? r.client.sinks j ≡ some info
        → Returns (Ran k sink j info infos strips r) (sunrise_run fl k sink infos strips true r)
    unfolding sunrise_run advance
    sunrise_run-ended r runs last found entry =
        let (l, at) = get_elem?-some ls 0 (omega (arith, are.size)) in
        rw (sunrise_run, last)
          (Returns-bind
            (sun_get_pixel-Passed are r.frame_no 0 l at r.state r.frame runs.step (inr (last, refl))
              runs.frame)
            λ result p.
              Returns-bind
                (opc_put_pixel_list-Put k sink j info result.1.1 infos strips r.client found entry
                  wired (omega (arith, fits, p.size)) given)
                λ sent (zero_returned, out, organised, done, put).
                  let (is, later) = increment-IsClock result.1.0.current_time p.step.clock in
                  returns (record {
                    code = rw zero_returned refl;
                    number = refl;
                    runs = record {
                      step = record { content = p.step.content; left = p.step.left; clock = is };
                      frame = p.size;
                      frame_no = refl;
                      bound = omega arith;
                    };
                    time = later ∙ ap (λ c. (minutes c + 10) % 1440) p.time;
                    sent = λ ended. (out, organised, done, put);
                    silent = λ early. absurd (omega arith);
                  }))

    -- Let the file have the lines of the 471 positions in order, with a brightness at every time
    -- that tens of minutes lead to, the layout of at most 471 pixels be wired, there be memory for
    -- `opc_put_pixel_list` and the sink exist. A frame of `sunrise_run` whose number is its place in
    -- the file does not fault, and leaves the next frame's number, once the main loop has counted,
    -- at its place. After the last line the organised pixels are sent as `opc_put_pixels` sends
    -- them, 1 is returned, and the clock moves on by ten minutes, past midnight to 0:00; in the
    -- other frames nothing is sent, 0 is returned, and the clock stands.
    pub sunrise_run-Ran :
        (r : SunRunner)
        → Runs r.frame_no r
        → find_sink sink r.client ≡ some j
        → get_elem? r.client.sinks j ≡ some info
        → Returns (Ran k sink j info infos strips r) (sunrise_run fl k sink infos strips true r)
    sunrise_run-Ran r runs found entry = elim (dec_lt r.frame_no 471) [
      | yes before ↦ sunrise_run-on r runs before
      | no ended ↦ sunrise_run-ended r runs (omega (arith, runs.bound)) found entry
    ]
