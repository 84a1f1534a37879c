-- ===== src/CtrlServer/Rounds/Basic.antt =====
-- A round of `basic_server` with a client.
use c_client.Prelude.{
  set-append, ℕ, ◌+◌, ◌-◌, ◌≡◌, ◌≢◌, ◌⊎◌, inl, inr, false, List, [], ◌∷◌, ◌++◌, append_assoc, arith,
  length, length-append, replicate, ◌==◌, c_string, NoNul, NoNul-append, c_string-append,
  c_string-zeros, lt→ltb,
}
use c_client.Prelude.Int.{ℤ}
use c_client.CtrlServer.{Peer, Server, bytes, waiting, hung_up, ok, fault, get_latest_input}
use c_client.CtrlServer.Command.{try_get_command}
use c_client.CtrlServer.Rounds.{cut_newline, basic_round}

-- A line in a cleared buffer loses its newline.
cut_newline-line :
    (p : Peer) (s : Server) (text : List ℕ) (n : ℕ)
    → NoNul text
    → cut_newline p ((text ++ (10 ∷ [])) ++ replicate n 0) s ≡ ok (text ++ (0 ∷ replicate n 0), s)
unfolding cut_newline
cut_newline-line p s text n h =
    let line : c_string ((text ++ (10 ∷ [])) ++ replicate n 0) ≡ text ++ (10 ∷ []) =
      c_string-zeros (text ++ (10 ∷ [])) n (NoNul-append text (10 ∷ []) h (omega arith)) in
    let len : length (text ++ (10 ∷ [])) ≡ length text + 1 =
      omega (arith, length-append text (10 ∷ [])) in
    let some_text : (length text + 1 == 0) ≡ false = ground arith in
    let last : length text + 1 - 1 ≡ length text = omega arith in
    rw (line, len, some_text, last, append_assoc, set-append text (replicate n 0) 10 0)

module _ (p : Peer) (shared_cmd : ℤ) (s : Server) where
  connected_test : s.client_fd ≢ 0 → (s.client_fd == 0) ≡ false
  connected_test ne = ground arith

  -- With a client of which no byte is waiting, or that has hung up, the round writes outside of its
  -- buffer.
  pub basic_round-fault :
      s.client_fd ≢ 0
      → (p.recv s.clock 16 ≡ waiting) ⊎ (p.recv s.clock 16 ≡ hung_up)
      → basic_round p shared_cmd s ≡ fault
  unfolding basic_round get_latest_input cut_newline c_string
  basic_round-fault ne (inl e) = rw (connected_test ne, e, get_latest_input)
  basic_round-fault ne (inr e) = rw (connected_test ne, e, get_latest_input)

  -- A line that is read with its newline and has no NUL leaves the command that it names without the
  -- newline, or the old command if it names none.
  pub basic_round-line :
      (text : List ℕ)
      → s.client_fd ≢ 0
      → p.recv s.clock 16 ≡ bytes (text ++ (10 ∷ []))
      → NoNul text
      → basic_round p shared_cmd s
        ≡ ok (try_get_command text shared_cmd, record s { clock = s.clock + 1 })
  unfolding basic_round get_latest_input
  basic_round-line text ne e h =
      let len : length (text ++ (10 ∷ [])) ≡ length text + 1 =
        omega (arith, length-append text (10 ∷ [])) in
      let not_empty : (length text + 1 == 0) ≡ false = ground arith in
      rw (
        connected_test ne,
        e,
        get_latest_input,
        cut_newline-line p _ text _ h,
        len,
        not_empty,
        lt→ltb 0 (length text + 1) (omega arith),
        c_string-append text _ h,
      )
