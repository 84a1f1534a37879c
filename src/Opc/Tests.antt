-- ===== src/Opc/Tests.antt =====
-- The theorems on src/opc/opc_client.c on a small network.
use c_client.Prelude.{
  ℕ, ◌+◌, ◌*◌, ◌<◌, ◌≤◌, ◌≡◌, refl, ◌↔◌, Bool, true, none, some, List, [], ◌∷◌, ◌++◌, codes, Option,
  arith, replicate, Returns, store,
}
use c_client.Prelude.Int.{pos}
use c_client.Extension.{Pixel, white_pixel}
use c_client.Samples.{
  memory, memory-Given, layout, layout-AllWired, slow_network, one, shut_sink, fresh_client,
}
use c_client.Opc.{Client, sent, find_sink, opc_connect, opc_send, opc_put_pixel_list, header}
use c_client.Opc.Connect.{Connected, opc_connect-Connected}
use c_client.Opc.Sending.{Sent, opc_send-Sent}
use c_client.Opc.Message.{header-length, Put, opc_put_pixel_list-Put}
use c_client.Strtol.Decimal.{digits}
use c_client.Opc.Sinks.{AddrInfo, opc_new_sink}
use c_client.Opc.NewSink.{NewSink, opc_new_sink-NewSink}
use c_client.Opc.Strips.{organise}
use c_client.Opc.Strips.Organise.{Organised, organise-Organised}

found : find_sink (pos 0) fresh_client ≡ some 0
unfolding find_sink
found = refl

unknown_sink : find_sink (pos 1) fresh_client ≡ none
unfolding find_sink
unknown_sink = refl

-- A byte at a time, on a connection that the call opens.
sent_slowly :
    opc_send slow_network (pos 0) (4 ∷ 5 ∷ []) 2 fresh_client
    ≡ some (
      true,
      record {
        sinks = record { address = 1; port = 7890; sockid = pos 5 } ∷ [];
        next_sink = 1;
        calls = 6;
        log = sent (pos 5) (4 ∷ []) ∷ sent (pos 5) (5 ∷ []) ∷ [];
      },
    )
unfolding opc_send opc_connect find_sink one store
sent_slowly = refl

header_of_map : header 0 1413 ≡ 0 ∷ 0 ∷ 5 ∷ 133 ∷ []
unfolding header
header_of_map = refl

opc_connect_example :
    Returns (Connected 0 shut_sink fresh_client) (opc_connect slow_network (pos 0) fresh_client)
opc_connect_example = opc_connect-Connected 0 shut_sink slow_network fresh_client refl (pos 0) found

opc_send_example :
    Returns
      (Sent 0 shut_sink (4 ∷ 5 ∷ []) 2 fresh_client)
      (opc_send slow_network (pos 0) (4 ∷ 5 ∷ []) 2 fresh_client)
opc_send_example =
    opc_send-Sent 0 shut_sink (4 ∷ 5 ∷ []) 2 fresh_client slow_network (pos 0) found (omega arith)
      refl

-- The greatest count whose length the header holds.
header-length_example :
    ((high low : ℕ) × (header 0 (21845 * 3) ≡ 0 ∷ 0 ∷ high ∷ low ∷ [])
      × (high < 256)
      × (low < 256)
      × ((high * 256 + low ≡ 21845 * 3) ↔ (21845 ≤ 21845)))
header-length_example = header-length 0 21845 (omega arith)

organise_example :
    Returns
      (Organised (replicate 471 white_pixel) layout)
      (organise (replicate 471 white_pixel) layout (memory 8 64) true)
organise_example =
    organise-Organised (replicate 471 white_pixel) layout (memory 8 64) layout-AllWired
      (omega arith) (memory-Given 8 64)

opc_put_pixel_list_example :
    Returns
      (λ (result : ℕ × Client).
        (result.0 ≡ 0)
        × (out : List Pixel) × Organised (replicate 471 white_pixel) layout out
        × (sent : Bool) × Put slow_network
            (pos 0)
            0
            shut_sink
            0
            471
            out
            fresh_client
            (sent, result.1))
      (opc_put_pixel_list slow_network
        (pos 0)
        (replicate 471 white_pixel)
        layout
        (memory 8 64)
        true
        fresh_client)
opc_put_pixel_list_example =
    opc_put_pixel_list-Put slow_network (pos 0) 0 shut_sink (replicate 471 white_pixel) layout
      (memory 8 64) fresh_client found refl layout-AllWired (omega arith) (memory-Given 8 64)

-- A resolver that knows every name.
abbrev everywhere : List ℕ → Option (List AddrInfo)
everywhere name = some (record { inet = true; address = 16777343 } ∷ [])

abbrev no_sinks : Client
no_sinks = record { sinks = replicate 64 shut_sink; next_sink = 0; calls = 0; log = [] }

opc_new_sink-NewSink_example :
    Returns
      (NewSink everywhere no_sinks refl 16777343 7890)
      (opc_new_sink everywhere (codes "led" ++ (b':' ∷ digits 7890 7890 [])) no_sinks)
opc_new_sink-NewSink_example =
    opc_new_sink-NewSink everywhere no_sinks refl b'l' (codes "ed") 7890
      (record { inet = true; address = 16777343 }) [] (omega arith)
      ((λ e. omega arith), ((λ e. omega arith), ((λ e. omega arith), tt))) (omega arith)
      (omega arith) refl refl
