-- ===== src/CtrlServer/Rounds/WebSocket.antt =====
-- A round of `server` with a client.
use c_client.Prelude.{ℕ, ◌+◌, ◌<◌, ◌≤◌, ◌≡◌, ◌≢◌, ◌∙◌, ◌⊎◌, true, false, List, arith, ◌==◌, lt→ltb}
use c_client.Prelude.Int.{ℤ, pos, negsuc}
use c_client.CtrlServer.{Peer, Server, waiting, hung_up, ok, close_client}
use c_client.CtrlServer.Command.{try_get_command-decimal, to_int8-small}
use c_client.CtrlServer.Frame.{opcode_of}
use c_client.CtrlServer.Frame.Text.{Sends, read_ws_frame-Sends, read_ws_frame-idle}
use c_client.CtrlServer.Rounds.{server_round}
use c_client.Strtol.Decimal.{decimal, NoNul-decimal}

module _ (p : Peer) (sha1 base64 : List ℕ → List ℕ) (shared_cmd : ℤ) (s : Server) where
  connected_test : s.client_fd ≢ 0 → (s.client_fd == 0) ≡ false
  connected_test ne = ground arith

  -- A connected client that has no byte waiting is disconnected like one that has hung up. The
  -- command stays as it is.
  pub server_round-idle :
      s.client_fd ≢ 0
      → (p.recv s.clock 1 ≡ waiting) ⊎ (p.recv s.clock 1 ≡ hung_up)
      → p.closes (s.clock + 1) ≡ true
      → server_round p sha1 base64 shared_cmd s
        ≡ ok (shared_cmd, record s { client_fd = 0; clock = s.clock + 2 })
  unfolding server_round close_client
  server_round-idle ne idle closes =
      let two : s.clock + 1 + 1 ≡ s.clock + 2 = omega arith in
      rw (connected_test ne, read_ws_frame-idle p s idle, closes, two)

  -- A masked text frame that names a number from 1 to 127, read whole, leaves that number as the
  -- command and keeps the connection.
  pub server_round-decimal :
      (n first : ℕ) (key : List ℕ)
      → s.client_fd ≢ 0
      → Sends p s.clock first key (decimal n)
      → opcode_of first ≡ 1
      → 0 < n
      → n ≤ 127
      → server_round p sha1 base64 shared_cmd s ≡ ok (pos n, record s { clock = s.clock + 4 })
  unfolding server_round
  server_round-decimal n first key ne sends text_frame positive small =
      let named =
        try_get_command-decimal n (negsuc 2) positive (omega arith) ∙ to_int8-small n small in
      rw (
        connected_test ne,
        read_ws_frame-Sends p s first key (decimal n) sends text_frame (NoNul-decimal n),
        named,
        lt→ltb 0 n positive,
      )
