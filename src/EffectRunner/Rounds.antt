-- ===== src/EffectRunner/Rounds.antt =====
-- A round of the main loop of src/effect_runner.c.
use c_client.Prelude.{
  fill_lem, ℕ, zero, suc, ◌+◌, ◌≤◌, ◌≡◌, refl, ap, ◌∙◌, Option, some, List, arith, length,
  replicate, lt→ltb, le→ltb,
}
use c_client.Prelude.Int.{ℤ, pos, negsuc}
use c_client.Extension.{Pixel, white_pixel}
use c_client.CtrlServer.{ok, exits}
use c_client.EffectRunner.{
  Effects, Runner, clear_pixels, switch_effect, restarted, handle_command, ran, runner_round,
}
use c_client.EffectRunner.Commands.{Choice, choice, choice-Names, choice-bounds, start}

pub clear_pixels_lem :
    (frame : List Pixel)
    → length frame ≡ 471
    → clear_pixels frame ≡ some (replicate 471 white_pixel)
unfolding clear_pixels
clear_pixels_lem frame size = fill_lem white_pixel 471 frame size

-- No number of an effect: not positive, or past the table.
abbrev pub Idle : ℤ → Type 0
Idle (negsuc c) = Unit {0}
Idle (pos zero) = Unit {0}
Idle (pos (suc c)) = 10 ≤ suc c

module _ {E W : Type 0} (es : Effects E W) where
  handle_command-start :
      (n : ℕ) (c : Choice) (r : Runner E W) (e : E)
      → choice n ≡ some c
      → r.effect ≡ some e
      → length r.frame ≡ 471
      → handle_command es (pos n) r
        ≡ restarted es (replicate 471 white_pixel) (start es c (es.remove e r.world))
  unfolding handle_command switch_effect
  handle_command-start n c r e chosen running size =
      let named = choice-Names es n c chosen in
      let bounds = choice-bounds n c chosen in
      rw (
        lt→ltb 0 n bounds.0,
        lt→ltb n 10 bounds.1,
        named.at,
        switch_effect,
        running,
        clear_pixels_lem r.frame size,
        named.starts (es.remove e r.world),
      )

  module _ (r : Runner E W) (e after : E) (frame : List Pixel) (number : ℕ) (w : W) where
    pub runner_round-start :
        (n : ℕ) (c : Choice)
        → r.effect ≡ some e
        → es.run e r.frame r.frame_no r.world ≡ ok (after, (frame, (number, w)))
        → length frame ≡ 471
        → choice n ≡ some c
        → runner_round es (pos n) r
          ≡ restarted es (replicate 471 white_pixel) (start es c (es.remove after w))
    unfolding runner_round ran
    runner_round-start n c running ran_ok size chosen =
        rw (running, ran_ok, ran)
          (handle_command-start n c
            (record { effect = some after; frame = frame; frame_no = number + 1; world = w }) after
            chosen refl size)

    -- When the effect has run, a command from 1 to 9 ends it, whitens the frame, and starts the
    -- effect that the command stands for at frame 0. The command is used up.
    pub runner_round-switch :
        (n : ℕ) (c : Choice) (new : Option E) (w' : W)
        → r.effect ≡ some e
        → es.run e r.frame r.frame_no r.world ≡ ok (after, (frame, (number, w)))
        → length frame ≡ 471
        → choice n ≡ some c
        → start es c (es.remove after w) ≡ ok (new, w')
        → runner_round es (pos n) r
          ≡ ok (
            negsuc 0,
            record { effect = new; frame = replicate 471 white_pixel; frame_no = 0; world = w' },
          )
    unfolding restarted
    runner_round-switch n c new w' running ran_ok size chosen started =
        runner_round-start n c running ran_ok size chosen
        ∙ ap (restarted es (replicate 471 white_pixel)) started

    pub runner_round-exits :
        (shared_cmd : ℤ)
        → r.effect ≡ some e
        → es.run e r.frame r.frame_no r.world ≡ exits
        → runner_round es shared_cmd r ≡ exits
    unfolding runner_round ran
    runner_round-exits shared_cmd running ended = rw (running, ended) refl

    -- When the effect has run, any other command stays, and the effect goes on with the frame after
    -- the number that it left.
    pub runner_round-stay :
        (shared_cmd : ℤ)
        → r.effect ≡ some e
        → es.run e r.frame r.frame_no r.world ≡ ok (after, (frame, (number, w)))
        → Idle shared_cmd
        → runner_round es shared_cmd r
          ≡ ok (
            shared_cmd,
            record { effect = some after; frame = frame; frame_no = number + 1; world = w },
          )
    unfolding runner_round ran handle_command
    runner_round-stay (negsuc c) running ran_ok idle = rw (running, ran_ok, ran)
    runner_round-stay (pos zero) running ran_ok idle = rw (running, ran_ok, ran)
    runner_round-stay (pos (suc c)) running ran_ok idle =
        rw (running, ran_ok, ran, lt→ltb 0 (suc c) (omega arith), le→ltb (suc c) 10 idle)
