-- ===== src/Program/Safe.antt =====
-- The runner never lacks an effect, whatever the servers leave in the command.
use mathlib.Core.Path.{subst}
use c_client.Prelude.{
  ℕ, zero, suc, ◌+◌, ◌≡◌, refl, ◌≢◌, sym, ◌⊎◌, inl, inr, Option, none, some, List, arith, length,
  length-replicate, replicate, leb, Bool-cases, get_elem?-some,
}
use c_client.Prelude.Int.{ℤ, pos, negsuc}
use c_client.Extension.{Pixel, white_pixel}
use c_client.CtrlServer.{Outcome, ok, exits, fault}
use c_client.EffectRunner.{
  Constructor, get_dummy_python_effect, Effects, Runner, built, restarted, runner_round,
}
use c_client.EffectRunner.Commands.{Choice, native, script, choice, choices, start}
use c_client.EffectRunner.Rounds.{Idle, runner_round-start, runner_round-stay, runner_round-exits}
use c_client.Program.{State, Outside, Step, web_step, basic_step, runner_step, Steps, here, then}

module _ {E W : Type 0} (Good : E → ℕ → W → Type 0) (Fit : W → Type 0) where
  -- What the runner relies on; Program/Own/Laws shows it of the effects of src/effects.
  -- `Good` holds of an effect, the number of its next frame and
  -- the world, `Fit` of a world without an effect. A run on a whole frame ends the program or leaves a
  -- whole frame and a good effect for the frame that the main loop counts next; removing it leaves a
  -- fit world, in which scripts may start and every constructor that a command stands for makes a
  -- good effect for frame 0, returns NULL or ends the program. There is memory for the stand-in of the
  -- scripts, which is good too.
  pub record Lawful (es : Effects E W) : Type 0 where
    pub runs :
        (e : E) (frame : List Pixel) (n : ℕ) (w : W)
        → Good e n w
        → length frame ≡ 471
        → (es.run e frame n w ≡ exits)
          ⊎ ((after : E) × (frame' : List Pixel) × (n' : ℕ) × (w' : W) × (es.run e frame n w
                ≡ ok (after, (frame', (n', w'))))
              × (length frame' ≡ 471)
              × Good after (n' + 1) w')
    pub removes : (e : E) (n : ℕ) (w : W) → Good e n w → Fit (es.remove e w)
    pub scripts : (line : List ℕ) (w : W) → Fit w → Fit (es.system line w)
    pub constructs :
        (n : ℕ) (new : Constructor) (w w' : W) (e : E)
        → choice n ≡ some (native new)
        → Fit w
        → es.construct new w ≡ ok (some e, w')
        → Good e 0 w'
    pub no_fault :
        (n : ℕ) (new : Constructor) (w : W)
        → choice n ≡ some (native new)
        → Fit w
        → es.construct new w ≢ fault
    pub stand_in :
        (w : W)
        → Fit w
        → (e : E) × (w' : W) × (es.construct get_dummy_python_effect w ≡ ok (some e, w'))
          × Good e 0 w'

module _ {E W : Type 0} (Good : E → ℕ → W → Type 0) where
  -- There is a good effect, and the frame is whole.
  pub record Safe (r : Runner E W) : Type 0 where
    pub current : E
    pub running : r.effect ≡ some current
    pub whole : length r.frame ≡ 471
    pub good : Good current r.frame_no r.world

  -- The round leaves a safe runner, or has ended the program.
  -- It does not fault.
  abbrev pub EndsSafe : Outcome (ℤ × Runner E W) → Type 0
  EndsSafe (ok (cmd, r)) = Safe r
  EndsSafe exits = Unit {0}
  EndsSafe fault = ⊥

command-cases :
    (c : ℤ) → Idle c ⊎ ((n : ℕ) × (what : Choice) × (c ≡ pos n) × (choice n ≡ some what))
command-cases (negsuc c) = inl tt
command-cases (pos zero) = inl tt
command-cases (pos (suc c)) = elim (Bool-cases (leb 9 c)) [
  | inl high ↦ inl (ground arith)
  | inr low ↦
      let (what, at) = get_elem?-some choices c (ground arith) in inr (suc c, what, refl, at)
]

module _ {E W : Type 0} (Good : E → ℕ → W → Type 0) (Fit : W → Type 0) (es : Effects E W)
    (laws : Lawful Good Fit es) where
  built-EndsSafe :
      (made : Outcome (Option E × W))
      → ((e : E) (w : W) → made ≡ ok (some e, w) → Good e 0 w)
      → made ≢ fault
      → EndsSafe Good (restarted es (replicate 471 white_pixel) (built es made))
  unfolding restarted built
  built-EndsSafe exits good sound = tt
  built-EndsSafe fault good sound = sound refl
  built-EndsSafe (ok (none, w)) good sound = tt
  built-EndsSafe (ok (some e, w)) good sound = record {
    current = e;
    running = refl;
    whole = length-replicate 471 white_pixel;
    good = good e w refl;
  }

  restarted-EndsSafe :
      (n : ℕ) (c : Choice) (w : W)
      → choice n ≡ some c
      → Fit w
      → EndsSafe Good (restarted es (replicate 471 white_pixel) (start es c w))
  unfolding restarted
  restarted-EndsSafe n (native new) w chosen fit =
      built-EndsSafe (es.construct new w)
        (λ e w' made. laws.constructs n new w w' e chosen fit made)
        (laws.no_fault n new w chosen fit)
  restarted-EndsSafe n (script line) w chosen fit =
      let (e, w', made, good) = laws.stand_in (es.system line w) (laws.scripts line w fit) in
      rw (made) (record {
        current = e;
        running = refl;
        whole = length-replicate 471 white_pixel;
        good = good;
      })

  after_run :
      (c : ℤ) (r : Runner E W) (e after : E) (frame : List Pixel) (number : ℕ) (w : W)
      → r.effect ≡ some e
      → es.run e r.frame r.frame_no r.world ≡ ok (after, (frame, (number, w)))
      → length frame ≡ 471
      → Good after (number + 1) w
      → EndsSafe Good (runner_round es c r)
  after_run c r e after frame number w running ran whole good = elim (command-cases c) [
    | inl idle ↦
        subst (EndsSafe Good)
          (sym (runner_round-stay es r e after frame number w c running ran idle))
          (record { current = after; running = refl; whole = whole; good = good })
    | inr (n, what, named, chosen) ↦
        subst (λ k. EndsSafe Good (runner_round es k r)) (sym named)
          (subst (EndsSafe Good)
            (sym (runner_round-start es r e after frame number w n what running ran whole chosen))
            (restarted-EndsSafe n what (es.remove after w) chosen
              (laws.removes after (number + 1) w good)))
  ]

  runner_round-EndsSafe :
      (c : ℤ) (r : Runner E W) → Safe Good r → EndsSafe Good (runner_round es c r)
  runner_round-EndsSafe c r safe =
      elim (laws.runs safe.current r.frame r.frame_no r.world safe.good safe.whole) [
        | inl ended ↦
            subst (EndsSafe Good)
              (sym (
                runner_round-exits es r safe.current safe.current r.frame r.frame_no r.world c
                  safe.running ended))
              tt
        | inr (after, frame, number, w, ran, whole, good) ↦
            after_run c r safe.current after frame number w safe.running ran whole good
      ]

  module _ (o : Outside) where
    Step-Safe : (s t : State E W) → Step o es s t → Safe Good s.runner → Safe Good t.runner
    Step-Safe s _ (web_step cmd after e) safe = safe
    Step-Safe s _ (basic_step cmd after e) safe = safe
    Step-Safe s _ (runner_step cmd after e) safe =
        subst (EndsSafe Good) e (runner_round-EndsSafe s.shared_cmd s.runner safe)

    Steps-Safe : (s t : State E W) → Steps o es s t → Safe Good s.runner → Safe Good t.runner
    Steps-Safe s _ here safe = safe
    Steps-Safe s u (then {t} steps step) safe = Step-Safe t u step (Steps-Safe s t steps safe)

    -- Let the effects do what the runner relies on, and the runner have a good effect and a whole frame. Then it
    -- has after any rounds of the three threads that end well, in any order and with any clients, and
    -- its next round does not fault: it leaves it so again, or ends the program because the effect
    -- does or no effect could be made.
    pub Steps-EndsSafe :
        (s t : State E W)
        → Steps o es s t
        → Safe Good s.runner
        → Safe Good t.runner × EndsSafe Good (runner_round es t.shared_cmd t.runner)
    Steps-EndsSafe s t steps safe =
        let still = Steps-Safe s t steps safe in
        (still, runner_round-EndsSafe t.shared_cmd t.runner still)
