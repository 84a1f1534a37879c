-- ===== src/EffectRunner/Tests.antt =====
-- The theorems on src/effect_runner.c on effects that leave the frame alone.
use c_client.Prelude.{◌≡◌, refl, some, [], ◌∷◌, arith, length-replicate, codes, replicate}
use c_client.Prelude.Int.{pos, negsuc}
use c_client.Extension.{white_pixel, black_pixel}
use c_client.CtrlServer.{ok, exits}
use c_client.Samples.{recording, scrolling}
use c_client.EffectRunner.{
  get_scroller_effect, get_dummy_python_effect, conway, init_effect, runner_round,
}
use c_client.EffectRunner.Commands.{script}
use c_client.EffectRunner.Rounds.{runner_round-switch, runner_round-stay}

runner_round-switch_example :
    runner_round recording (pos 5) scrolling
    ≡ ok (
      negsuc 0,
      record {
        effect = some get_dummy_python_effect;
        frame = replicate 471 white_pixel;
        frame_no = 0;
        world = conway ∷ [];
      },
    )
runner_round-switch_example =
    runner_round-switch recording scrolling get_scroller_effect get_scroller_effect
      (replicate 471 black_pixel) 12 [] 5 (script conway) (some get_dummy_python_effect)
      (conway ∷ []) refl refl (length-replicate 471 black_pixel) refl refl

runner_round-stay_example :
    runner_round recording (pos 10) scrolling
    ≡ ok (
      pos 10,
      record {
        effect = some get_scroller_effect;
        frame = replicate 471 black_pixel;
        frame_no = 13;
        world = [];
      },
    )
runner_round-stay_example =
    runner_round-stay recording scrolling get_scroller_effect get_scroller_effect
      (replicate 471 black_pixel) 12 [] (pos 10) refl refl (omega arith)

-- A name of no effect ends the program.
no_such_effect : init_effect recording (codes "tetris") [] ≡ exits
unfolding init_effect
no_such_effect = refl
