-- ===== src/Weather/Sending.antt =====
-- The frame of a weather effect on the wire.
use c_client.Prelude.{
  ℕ, ◌≤◌, ◌≡◌, refl, Bool, true, some, List, arith, length, get_elem?, Returns-value,
}
use c_client.Prelude.Int.{ℤ}
use c_client.Extension.{Pixel, PixelInfo, num_strips, max_strip_size}
use c_client.Pixel.{GridMemory}
use c_client.Pixel.Fill.{Given}
use c_client.Opc.{SinkInfo, Client, Kernel, find_sink}
use c_client.Opc.Strips.Sizes.{AllWired}
use c_client.Opc.Strips.Organise.{Organised}
use c_client.Opc.Message.{Put, opc_put_pixel_list-Put}
use c_client.Process.{Ends, Ends-of_eq}
use c_client.Weather.{Weather, put_frame}

module _ (k : Kernel) (sink : ℤ) (j : ℕ) (info : SinkInfo) (infos : List PixelInfo)
    (strips : GridMemory) (wired : AllWired infos) (fits : length infos ≤ 471)
    (given : Given num_strips max_strip_size strips) where
  pub put_frame-Put :
      (w : Weather)
      → length w.frame ≡ 471
      → find_sink sink w.client ≡ some j
      → get_elem? w.client.sinks j ≡ some info
      → Ends
          (λ (result, w').
            (result ≡ 0)
            × (c : Client) × (w' ≡ record w { client = c })
            × (out : List Pixel) × Organised w.frame infos out
            × (done : Bool) × Put k sink j info 0 471 out w.client (done, c))
          (put_frame k sink infos strips true w)
  unfolding put_frame
  put_frame-Put w size found entry =
      let ((result, c), sent, (zero, out, organised, done, put)) = Returns-value (
        opc_put_pixel_list-Put k sink j info w.frame infos strips w.client found entry wired
          (omega (arith, fits, size)) given) in
      Ends-of_eq (rw (put_frame, sent) refl) (zero, c, refl, out, organised, done, put)
