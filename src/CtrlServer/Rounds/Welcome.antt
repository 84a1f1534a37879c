-- ===== src/CtrlServer/Rounds/Welcome.antt =====
-- A round of `server` that accepts a client.
use c_client.Prelude.{
  ℕ, zero, suc, ◌+◌, ◌≤◌, ◌≡◌, ◌≢◌, ap, ◌∙◌, true, false, some, List, [], ◌∷◌, ◌++◌, append_assoc,
  arith, length, replicate, ◌==◌, c_string, NoNul, c_string-zeros, lt→ltb, replicate-suc_append,
}
use c_client.Prelude.Int.{ℤ, negsuc}
use c_client.CtrlServer.{
  Peer, Server, bytes, waiting, client, ok, get_latest_input, close_client, try_accept_conn,
}
use c_client.CtrlServer.Frame.{is_positive}
use c_client.CtrlServer.Upgrade.{ws_key_header, strstr, is_valid_http_upgrade}
use c_client.CtrlServer.Upgrade.Response.{OneLine, response, try_to_upgrade_lem}
use c_client.CtrlServer.Rounds.{server_round, welcome, poll}

-- The buffer, with its last byte, holds the request and zeros.
c_string-request :
    (request : List ℕ) (n : ℕ)
    → NoNul request
    → c_string ((request ++ replicate n 0) ++ (0 ∷ [])) ≡ request
c_string-request request n h =
    rw (append_assoc, replicate-suc_append {A = ℕ} n 0) (c_string-zeros request (suc n) h)

module _ (p : Peer) (sha1 base64 : List ℕ → List ℕ) (shared_cmd : ℤ) where
  welcome-request :
      (s : Server) (request key rest : List ℕ)
      → p.recv s.clock 4095 ≡ bytes request
      → NoNul request
      → is_valid_http_upgrade request ≡ true
      → strstr ws_key_header request ≡ some (ws_key_header ++ (key ++ (13 ∷ rest)))
      → OneLine key
      → is_positive (p.write (s.clock + 1) (response sha1 base64 key)) ≡ true
      → welcome p sha1 base64 shared_cmd s
        ≡ ok (
          shared_cmd,
          record s {
            clock = s.clock + 1 + 1;
            written = s.written ++ (response sha1 base64 key ∷ []);
          },
        )
  unfolding welcome get_latest_input
  welcome-request s request key rest got no_nul valid found line written =
      let answer =
        (try_to_upgrade_lem sha1 base64 p (record s { clock = s.clock + 1 }) request).1 key rest
          valid found line in
      rw (
        got,
        get_latest_input,
        lt→ltb 0 (length request) (p.recv_bounded s.clock 4095 request got).0,
        c_string-request request _ no_nul,
        answer,
        written,
      )

  poll-waiting :
      (s : Server) (tries : ℕ)
      → p.recv s.clock 4095 ≡ waiting
      → poll p (suc tries) s ≡ poll p tries (record s { clock = s.clock + 1 })
  unfolding poll get_latest_input
  poll-waiting s tries e = rw (e, get_latest_input)

  poll-last :
      (s : Server)
      → p.recv s.clock 4095 ≡ waiting
      → poll p 0 s ≡ ok ((negsuc 0, replicate 4095 0), record s { clock = s.clock + 1 })
  unfolding poll get_latest_input
  poll-last s e = rw (e, get_latest_input)

  at_clock : Server → ℕ → Server
  at_clock s c = record s { clock = c }

  poll-silent :
      (tries c : ℕ) (s : Server)
      → ((k : ℕ) → c ≤ k → k ≤ c + tries → p.recv k 4095 ≡ waiting)
      → poll p tries (at_clock s c) ≡ ok ((negsuc 0, replicate 4095 0), at_clock s (c + tries + 1))
  unfolding at_clock
  poll-silent zero c s silent =
      poll-last (record s { clock = c }) (silent c (omega arith) (omega arith))
      ∙ ap (λ k. ok ((negsuc 0, replicate 4095 0), record s { clock = k })) (omega arith)
  poll-silent (suc tries) c s silent =
      poll-waiting (record s { clock = c }) tries (silent c (omega arith) (omega arith))
      ∙ poll-silent tries (c + 1) s (λ k lo hi. silent k (omega arith) (omega arith))
      ∙ ap (λ k. ok ((negsuc 0, replicate 4095 0), record s { clock = k })) (omega arith)

  welcome-silent :
      (c : ℕ) (s : Server)
      → ((k : ℕ) → c ≤ k → k ≤ c + 4 → p.recv k 4095 ≡ waiting)
      → p.closes (c + 4 + 1) ≡ true
      → welcome p sha1 base64 shared_cmd (at_clock s c)
        ≡ ok (shared_cmd, record s { client_fd = 0; clock = c + 4 + 1 + 1 })
  unfolding welcome close_client at_clock
  welcome-silent c s silent closes = rw (poll-silent 4 c s silent, closes)

  module _ (s : Server) (fd : ℕ) where
    accepting :
        s.client_fd ≡ 0
        → p.accept s.clock ≡ client fd
        → fd ≢ 0
        → server_round p sha1 base64 shared_cmd s
          ≡ welcome p sha1 base64 shared_cmd (record s { client_fd = fd; clock = s.clock + 1 })
    unfolding server_round try_accept_conn
    accepting idle accepted real =
        let idle_test : (s.client_fd == 0) ≡ true = ground arith in
        let real_test : (fd == 0) ≡ false = ground arith in
        rw (idle_test, accepted, try_accept_conn, real_test)

    -- A client that sends a valid request at once is answered with the response to its key, and is
    -- kept if the answer could be written. The command stays as it is.
    pub server_round-upgrade :
        (request key rest : List ℕ)
        → s.client_fd ≡ 0
        → p.accept s.clock ≡ client fd
        → fd ≢ 0
        → p.recv (s.clock + 1) 4095 ≡ bytes request
        → NoNul request
        → is_valid_http_upgrade request ≡ true
        → strstr ws_key_header request ≡ some (ws_key_header ++ (key ++ (13 ∷ rest)))
        → OneLine key
        → is_positive (p.write (s.clock + 2) (response sha1 base64 key)) ≡ true
        → server_round p sha1 base64 shared_cmd s
          ≡ ok (
            shared_cmd,
            record s {
              client_fd = fd;
              clock = s.clock + 3;
              written = s.written ++ (response sha1 base64 key ∷ []);
            },
          )
    server_round-upgrade request key rest idle accepted real got no_nul valid found line written =
        let two : s.clock + 1 + 1 ≡ s.clock + 2 = omega arith in
        let three : s.clock + 1 + 1 + 1 ≡ s.clock + 3 = omega arith in
        accepting idle accepted real
        ∙ welcome-request (record s { client_fd = fd; clock = s.clock + 1 }) request key rest got
            no_nul valid found line (rw two written)
        ∙ ap
            (λ k. ok (
              shared_cmd,
              record s {
                client_fd = fd;
                clock = k;
                written = s.written ++ (response sha1 base64 key ∷ []);
              },
            ))
            three

    -- A client that sends nothing in five tries is closed, and the command stays as it is.
    pub server_round-silent :
        s.client_fd ≡ 0
        → p.accept s.clock ≡ client fd
        → fd ≢ 0
        → ((k : ℕ) → s.clock + 1 ≤ k → k ≤ s.clock + 5 → p.recv k 4095 ≡ waiting)
        → p.closes (s.clock + 6) ≡ true
        → server_round p sha1 base64 shared_cmd s
          ≡ ok (shared_cmd, record s { client_fd = 0; clock = s.clock + 7 })
    unfolding at_clock
    server_round-silent idle accepted real silent closes =
        let six : s.clock + 1 + 4 + 1 ≡ s.clock + 6 = omega arith in
        let seven : s.clock + 1 + 4 + 1 + 1 ≡ s.clock + 7 = omega arith in
        accepting idle accepted real
        ∙ welcome-silent (s.clock + 1) (record s { client_fd = fd })
            (λ k lo hi. silent k lo (omega arith)) (rw six closes)
        ∙ ap (λ k. ok (shared_cmd, record s { client_fd = 0; clock = k })) seven
