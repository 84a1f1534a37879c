-- ===== src/Weather/Passes.antt =====
-- A pass of `weather_timelapse_run` over the positions.
use native.Mathlib.Decide.{dec_lt}
use mathlib.Core.Path.{subst}
use c_client.Prelude.{
  ℕ, zero, suc, ◌+◌, ◌%◌, ◌<◌, ◌≤◌, ◌≡◌, refl, ◌≢◌, ap, ◌∙◌, Bool, false, some, List, arith, length,
  set, get_elem?, get_elem?-set_self, get_elem?-set_ne, ◌==◌,
}
use c_client.Prelude.Int.{ℤ}
use c_client.Extension.{Double, Pixel, PixelInfo, num_strips, max_strip_size}
use c_client.Pixel.{GridMemory}
use c_client.Pixel.Fill.{Given}
use c_client.Opc.{SinkInfo, Kernel, find_sink}
use c_client.Opc.Strips.Sizes.{AllWired}
use c_client.Opc.Strips.Organise.{Organised}
use c_client.Opc.Message.{Put}
use c_client.Floats.{Floats}
use c_client.Process.{ok, and_then, Ends, ends, Ends-bind, Ends-mono}
use c_client.Weather.{Bytes, Weather, Action}
use c_client.Weather.Palette.{set_temp_pixel_colour}
use c_client.Weather.Lines.{TempLine, value_text}
use c_client.Weather.Place.{AreTemps, next, Painted}
use c_client.Weather.Timelapse.{Runs, Ran, run, weather_timelapse_run-Ran}

-- Frames of an effect one after the other, as the main loop counts them.
unfoldable pub frames : Action ℕ → ℕ → Action (Unit {0})
frames step zero w = ok (tt, w)
frames step (suc n) w =
    and_then (step w) λ code w'. frames step n (record w' { frame_no = suc w'.frame_no })

pub Ends-frames :
    {P : ℕ × Weather → Type 0} {Q : Unit {0} × Weather → Type 0} (step : Action ℕ) (n : ℕ)
    (w : Weather)
    → Ends P (step w)
    → ((code : ℕ) (w' : Weather)
        → P (code, w')
        → Ends Q (frames step n (record w' { frame_no = suc w'.frame_no })))
    → Ends Q (frames step (suc n) w)
unfolding frames
Ends-frames step n w first rest = Ends-bind first rest

pub next-inner :
    (fl : Floats) (atof : Bytes → Double) (ls : List TempLine) (p : ℕ)
    → p < length ls
    → next fl atof ls p ≡ suc p
next-inner fl atof ls p more = let inner : (p == length ls) ≡ false = ground arith in rw inner refl

Painted-others :
    (fl : Floats) (atof : Bytes → Double) (ls : List TempLine) (p i : ℕ) (old new : List Pixel)
    → Painted fl atof ls p i old new
    → p ≤ length ls
    → (other : ℕ) → i ≢ other
    → get_elem? new other ≡ get_elem? old other
Painted-others fl atof ls p i old new painted bound other ne = elim (dec_lt p (length ls)) [
  | yes more ↦
      let (l, pixel, entry, colour, same) = painted.painted more in
      ap (λ ps. get_elem? ps other) same ∙ get_elem?-set_ne old i other pixel ne
  | no ended ↦ ap (λ ps. get_elem? ps other) (painted.kept (omega (arith, bound)))
]

module _ (fl : Floats) (atof : Bytes → Double) (ls : List TempLine) (k : Kernel) (sink : ℤ) (j : ℕ)
    (info : SinkInfo) (infos : List PixelInfo) where
  -- The pixel has the colour of the line.
  pub record Shows (frame : List Pixel) (p i : ℕ) : Type 0 where
    pub line : TempLine
    pub pixel : Pixel
    pub entry : get_elem? ls p ≡ some line
    pub colour : set_temp_pixel_colour fl (atof (value_text line)) ≡ some pixel
    pub shown : get_elem? frame i ≡ some pixel

  -- What `n` frames and the one that sends leave, the first of them with the number m, at the place p.
  pub record Sent (n m p : ℕ) (w : Weather) (result : Unit {0} × Weather) : Type 0 where
    pub shows : (i : ℕ) → i < n → Shows result.1.frame (p + i) (m + i)
    pub others : (i : ℕ) → 0 < i → i < m → get_elem? result.1.frame i ≡ get_elem? w.frame i
    pub sent :
        (out : List Pixel) × Organised result.1.frame infos out
        × (done : Bool) × Put k sink j info 0 471 out w.client (done, result.1.client)
    pub number : result.1.frame_no ≡ 1
    pub runs : Runs fl atof ls (next fl atof ls (p + n)) result.1

  module _ (strips : GridMemory) (are : AreTemps fl atof ls) (wired : AllWired infos)
      (fits : length infos ≤ 471) (given : Given num_strips max_strip_size strips) where
    abbrev step : Action ℕ
    step = run fl atof ls k sink j info infos strips are wired fits given

    Sent-last :
        (m p : ℕ) (w : Weather) (result : ℕ × Weather)
        → w.frame_no ≡ 471
        → m ≡ 471
        → Runs fl atof ls p w
        → Ran fl atof ls k sink j info infos p w result
        → Sent 0 m p w (tt, record result.1 { frame_no = suc result.1.frame_no })
    Sent-last m p w result last is_last runs ran =
        let zero_turn : w.frame_no % 471 ≡ 0 = omega arith in
        record {
          shows = λ i none. absurd (omega arith);
          others = λ i positive small.
              Painted-others fl atof ls p (w.frame_no % 471) w.frame result.1.frame ran.painted
                runs.step.bound i (λ same. omega arith);
          sent = ran.sent last;
          number = ap suc (ran.number ∙ zero_turn);
          runs =
              subst
                (λ q.
                  Runs fl atof ls (next fl atof ls q)
                    (record result.1 { frame_no = suc result.1.frame_no }))
                (omega arith) ran.runs;
        }

    Shows-suc :
        (n m p : ℕ) (w w1 w2 : Weather) (code : ℕ)
        → w.frame_no ≡ m
        → 0 < m
        → m < 471
        → Runs fl atof ls p w
        → Ran fl atof ls k sink j info infos p w (code, w1)
        → Sent n (suc m) (suc p) (record w1 { frame_no = suc w1.frame_no }) (tt, w2)
        → (i : ℕ) → i < suc n
        → Shows w2.frame (p + i) (m + i)
    Shows-suc n m p w w1 w2 code number positive small runs ran rest zero less =
        let here : w.frame_no % 471 ≡ m = omega arith in
        let inside : p < length ls = omega (arith, runs.turn, runs.step.bound, are.size) in
        let (l, pixel, entry, colour, painted) = ran.painted.painted inside in
        record {
          line = l;
          pixel = pixel;
          entry = ap (get_elem? ls) (omega arith) ∙ entry;
          colour = colour;
          shown =
              ap (get_elem? w2.frame) (omega arith)
              ∙ rest.others m positive (omega arith)
              ∙ ap (λ ps. get_elem? ps m) painted
              ∙ ap (λ at. get_elem? (set w.frame at pixel) m) here
              ∙ get_elem?-set_self w.frame m pixel (omega (arith, runs.step.frame));
        }
    Shows-suc n m p w w1 w2 code number positive small runs ran rest (suc i) less =
        let at_line : suc p + i ≡ p + suc i = omega arith in
        let at_pixel : suc m + i ≡ m + suc i = omega arith in
        rw (← at_line, ← at_pixel) (rest.shows i (omega arith))

    Sent-suc :
        (n m p : ℕ) (w w1 : Weather) (code : ℕ) (result : Unit {0} × Weather)
        → w.frame_no ≡ m
        → 0 < m
        → m < 471
        → Runs fl atof ls p w
        → Ran fl atof ls k sink j info infos p w (code, w1)
        → Sent n (suc m) (suc p) (record w1 { frame_no = suc w1.frame_no }) result
        → Sent (suc n) m p w result
    Sent-suc n m p w w1 code result number positive small runs ran rest =
        let here : w.frame_no % 471 ≡ m = omega arith in
        record {
          shows = Shows-suc n m p w w1 result.1 code number positive small runs ran rest;
          others = λ i positive small.
              rest.others i positive (omega arith)
              ∙ Painted-others fl atof ls p (w.frame_no % 471) w.frame w1.frame ran.painted
                  runs.step.bound i (λ same. omega arith);
          sent =
              let (out, organised, done, put) = rest.sent in
              (
                out,
                organised,
                done,
                subst (λ c. Put k sink j info 0 471 out c (done, result.1.client))
                    (ran.silent (omega arith)) put,
              );
          number = rest.number;
          runs = subst (λ q. Runs fl atof ls (next fl atof ls q) result.1) (omega arith) rest.runs;
        }

    pub weather_timelapse_run-Sent :
        (n m p : ℕ) (w : Weather)
        → n + m ≡ 471
        → 0 < m
        → w.frame_no ≡ m
        → Runs fl atof ls p w
        → find_sink sink w.client ≡ some j
        → get_elem? w.client.sinks j ≡ some info
        → Ends (Sent n m p w) (frames step (suc n) w)
    unfolding frames
    weather_timelapse_run-Sent zero m p w total positive number runs found entry =
        Ends-bind
          (weather_timelapse_run-Ran fl atof ls k sink j info infos strips are wired fits given p w
            runs found entry)
          λ code w1 ran. ends (Sent-last m p w (code, w1) (omega arith) (omega arith) runs ran)
    weather_timelapse_run-Sent (suc n) m p w total positive number runs found entry =
        Ends-bind
          (weather_timelapse_run-Ran fl atof ls k sink j info infos strips are wired fits given p w
            runs found entry)
          λ code w1 ran.
            let here : w.frame_no % 471 ≡ m = omega (arith, total) in
            let small : m < 471 = omega (arith, total) in
            let on : next fl atof ls p ≡ suc p =
              next-inner fl atof ls p (omega (arith, runs.turn, runs.step.bound, are.size)) in
            let quiet : w1.client ≡ w.client = ran.silent (omega arith) in
            Ends-mono
              (weather_timelapse_run-Sent n (suc m) (suc p)
                (record w1 { frame_no = suc w1.frame_no }) (omega (arith, total)) (omega arith)
                (ap suc (ran.number ∙ here))
                (subst (λ q. Runs fl atof ls q (record w1 { frame_no = suc w1.frame_no })) on
                  ran.runs)
                (ap (find_sink sink) quiet ∙ found) (ap (λ c. get_elem? c.sinks j) quiet ∙ entry))
              λ v w2 rest. Sent-suc n m p w w1 code (v, w2) number positive small runs ran rest
