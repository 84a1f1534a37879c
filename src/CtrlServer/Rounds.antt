-- ===== src/CtrlServer/Rounds.antt =====
-- The rounds of the loops of `server` and `basic_server` in src/ctrlserver.c. A round takes the shared
-- command and returns what it leaves there.
pub mod Basic
pub mod WebSocket
pub mod Welcome
use c_client.Prelude.{
  ℕ, zero, suc, ◌+◌, ◌-◌, Bool, true, false, List, [], ◌∷◌, ◌++◌, length, set, ◌==◌, if◌then◌else◌,
  c_string,
}
use c_client.Prelude.Int.{ℤ, pos, negsuc, eq_ℤ}
use c_client.CtrlServer.{
  Peer, Server, Action, ◌>>=◌, ◌>>◌, ok, fault, pure, get_latest_input, try_accept_conn,
  close_client,
}
use c_client.CtrlServer.Command.{try_get_command}
use c_client.CtrlServer.Frame.{is_positive, read_ws_frame}
use c_client.CtrlServer.Upgrade.{try_to_upgrade}

abbrev pub http_buffer_len : ℕ
http_buffer_len = 4095

abbrev pub basic_tcp_buffer : ℕ
basic_tcp_buffer = 16

unfoldable pub set_client : ℕ → Action (Unit {0})
set_client fd s = ok (tt, record s { client_fd = fd })

module _ (p : Peer) where
  -- cmd[len - 1] = '\0'. For an empty string the index is that of no byte of the buffer.
  unfoldable pub cut_newline : List ℕ → Action (List ℕ)
  cut_newline cmd s =
      let len = length (c_string cmd) in if len == 0 then fault else ok (set cmd (len - 1) 0, s)

  unfoldable pub basic_round : ℤ → Action ℤ
  unfolding set_client
  basic_round shared_cmd s =
      if s.client_fd == 0
      then (do fd ← try_accept_conn p; set_client fd; pure shared_cmd) s
      else (do
        (read, buffer) ← get_latest_input p basic_tcp_buffer
        cmd ← cut_newline buffer
        if eq_ℤ read (pos 0)
            then (close_client p >> pure shared_cmd)
            else if is_positive read
            then pure (try_get_command (c_string cmd) shared_cmd)
            else pure shared_cmd)
          s

  -- The do loop, with the number of tries left after this one.
  unfoldable pub poll : ℕ → Action (ℤ × List ℕ)
  poll zero = get_latest_input p http_buffer_len
  poll (suc tries) = do
    (read_size, buffer) ← get_latest_input p http_buffer_len
    if eq_ℤ read_size (negsuc 0) then poll tries else pure (read_size, buffer)

  module _ (sha1 base64 : List ℕ → List ℕ) where
    unfoldable pub welcome : ℤ → Action ℤ
    unfolding poll
    welcome shared_cmd = do
      (read_size, http_buffer) ← poll 4
      if is_positive read_size
          then (do
            code ← try_to_upgrade sha1 base64 p (c_string (http_buffer ++ (0 ∷ [])))
            if code == 0 then pure shared_cmd else (close_client p >> pure shared_cmd))
          else (close_client p >> pure shared_cmd)

    unfoldable pub server_round : ℤ → Action ℤ
    unfolding set_client welcome
    server_round shared_cmd s =
        if s.client_fd == 0
        then (do
          fd ← try_accept_conn p
          set_client fd
          if fd == 0 then pure shared_cmd else welcome shared_cmd)
            s
        else (do
          read ← read_ws_frame p
          if is_positive read
              then pure read
              else if eq_ℤ read (negsuc 0)
              then (close_client p >> pure shared_cmd)
              else pure shared_cmd)
            s
