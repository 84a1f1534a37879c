-- ===== src/SmallEffects/Tests.antt =====
-- The theorems on the effects that light one pixel, on three pixels of the layout.
use c_client.Prelude.{◌≡◌, true, none, arith, length-replicate, replicate}
use c_client.Prelude.Int.{pos}
use c_client.Extension.{black_pixel}
use c_client.Samples.{memory, layout, slow_network, fresh_client}
use c_client.SmallEffects.{alltest_run}
use c_client.SmallEffects.Lit.{alltest_run-fault}

alltest_run_late :
    alltest_run slow_network
      (pos 0)
      layout
      (memory 8 64)
      true
      471
      (replicate 471 black_pixel, fresh_client)
    ≡ none
alltest_run_late =
    alltest_run-fault slow_network (pos 0) layout (memory 8 64) 471 (replicate 471 black_pixel)
      fresh_client true (omega arith) (length-replicate 471 black_pixel)
