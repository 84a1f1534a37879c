-- ===== src/CtrlServer/Tests.antt =====
-- The theorems on src/ctrlserver.c with clients whose bytes come as a script says.
use c_client.Prelude.{
  codes, ℕ, zero, suc, ◌<◌, ◌≤◌, ◌≡◌, refl, inl, inr, Bool, true, not, ◌==◌, ◌&&◌, NoNul, some,
  List, [], ◌∷◌, ◌++◌, arith, length, ltb, leb, if◌then◌else◌,
}
use c_client.Prelude.Int.{pos, negsuc}
use c_client.CtrlServer.{Peer, Server, Received, bytes, waiting, client, ok, exits, fault}
use c_client.CtrlServer.Command.{try_get_command}
use c_client.CtrlServer.Frame.{unmask, read_ws_frame}
use c_client.CtrlServer.Frame.Text.{Sends, read_ws_frame-exits}
use c_client.CtrlServer.Upgrade.{
  crlf, request_method, request_upgrade, upgrade_to_ws_header, ws_key_header, strstr,
  is_valid_http_upgrade, sha1_and_encode,
}
use c_client.CtrlServer.Upgrade.Response.{response, OneLine}
use c_client.CtrlServer.Rounds.{basic_round, server_round}
use c_client.CtrlServer.Rounds.Basic.{basic_round-fault, basic_round-line}
use c_client.CtrlServer.Rounds.WebSocket.{server_round-idle, server_round-decimal}
use c_client.CtrlServer.Rounds.Welcome.{server_round-upgrade}
use c_client.Strtol.{strtol_any, is_space, scan, digit}
use c_client.Strtol.Decimal.{decimal, digits}

-- The bytes that are ready, if they fit.
abbrev give : ℕ → List ℕ → Received
give n bs = if ltb 0 (length bs) && leb (length bs) n then bytes bs else waiting

give_bounded :
    (n : ℕ) (ready bs : List ℕ) → give n ready ≡ bytes bs → (0 < length bs) × (length bs ≤ n)
give_bounded n ready bs e = grind arith

abbrev line_of : List (List ℕ) → ℕ → List ℕ
line_of [] i = []
line_of (l ∷ ls) zero = l
line_of (l ∷ ls) (suc i) = line_of ls i

abbrev scripted : List (List ℕ) → Peer
scripted script = record {
  recv = λ call n. give n (line_of script call);
  recv_bounded = λ call n bs e. give_bounded n (line_of script call) bs e;
  accept = λ call. client 7;
  write = λ call bs. pos (length bs);
  closes = λ call. true;
}

abbrev connected : Server
connected = record { client_fd = 7; clock = 0; written = [] }

abbrev alone : Server
alone = record { client_fd = 0; clock = 0; written = [] }

-- The last eight bits of 257 are those of 1, and a number may stand in hexadecimal.
wrapped : try_get_command (codes "257") (negsuc 2) ≡ pos 1
unfolding try_get_command strtol_any is_space scan digit
wrapped = refl

hexadecimal : try_get_command (codes " 0x2a") (negsuc 2) ≡ pos 42
unfolding try_get_command strtol_any is_space scan digit
hexadecimal = refl

no_number : try_get_command (codes "4x") (negsuc 2) ≡ negsuc 2
unfolding try_get_command strtol_any is_space scan digit
no_number = refl

abbrev mask_key : List ℕ
mask_key = 1 ∷ 250 ∷ 3 ∷ 4 ∷ []

-- A frame with the text of the number 42.
abbrev frame_peer : Peer
frame_peer = scripted ((129 ∷ []) ∷ (130 ∷ []) ∷ mask_key ∷ (53 ∷ 200 ∷ []) ∷ [])

frame_peer-Sends : Sends frame_peer 0 129 mask_key (decimal 42)
unfolding decimal digits unmask
frame_peer-Sends = record {
  header = refl;
  length_byte = refl;
  key_bytes = refl;
  payload = refl;
  unreserved = refl;
  key_len = refl;
  key_range = (omega arith, (omega arith, (omega arith, (omega arith, tt))));
  text_range = (omega arith, (omega arith, tt));
  text_len = (omega arith, omega arith);
}

server_round-decimal_example :
    server_round frame_peer (λ bs. bs) (λ bs. bs) (pos 3) connected
    ≡ ok (pos 42, record { client_fd = 7; clock = 4; written = [] })
server_round-decimal_example =
    server_round-decimal frame_peer (λ bs. bs) (λ bs. bs) (pos 3) connected 42 129 mask_key
      (omega arith) frame_peer-Sends refl (omega arith) (omega arith)

server_round-idle_example :
    server_round (scripted []) (λ bs. bs) (λ bs. bs) (pos 3) connected
    ≡ ok (pos 3, record { client_fd = 0; clock = 2; written = [] })
server_round-idle_example =
    server_round-idle (scripted []) (λ bs. bs) (λ bs. bs) (pos 3) connected (omega arith) (inl refl)
      refl

-- A frame that is not masked.
abbrev bare_peer : Peer
bare_peer = scripted ((129 ∷ []) ∷ (5 ∷ []) ∷ [])

read_ws_frame-exits_example : read_ws_frame bare_peer connected ≡ exits
read_ws_frame-exits_example =
    read_ws_frame-exits bare_peer connected 129 5 refl refl (inr (inl (omega arith)))

basic_round-fault_example : basic_round (scripted []) (pos 3) connected ≡ fault
basic_round-fault_example =
    basic_round-fault (scripted []) (pos 3) connected (omega arith) (inl refl)

basic_round-line_example :
    basic_round (scripted ((codes "42" ++ (10 ∷ [])) ∷ [])) (pos 3) connected
    ≡ ok (try_get_command (codes "42") (pos 3), record { client_fd = 7; clock = 1; written = [] })
basic_round-line_example =
    basic_round-line (scripted ((codes "42" ++ (10 ∷ [])) ∷ [])) (pos 3) connected (codes "42")
      (omega arith) refl (omega arith, (omega arith, tt))

abbrev sample_key : List ℕ
sample_key = codes "dGhlIHNhbXBsZQ=="

abbrev after_key : List ℕ
after_key = 10 ∷ crlf

-- A request for an upgrade.
abbrev request : List ℕ
request =
    request_method
    ++ (codes "1.1"
        ++ (crlf
            ++ (upgrade_to_ws_header
                ++ (request_upgrade ++ (ws_key_header ++ (sample_key ++ (13 ∷ after_key)))))))

request-valid : is_valid_http_upgrade request ≡ true
unfolding is_valid_http_upgrade
request-valid = refl

request-key :
    strstr ws_key_header request ≡ some (ws_key_header ++ (sample_key ++ (13 ∷ after_key)))
unfolding strstr
request-key = refl

lacks : ℕ → List ℕ → Bool
lacks x [] = true
lacks x (c ∷ cs) = not (c == x) && lacks x cs

lacks-NoNul : (bs : List ℕ) → lacks 0 bs ≡ true → NoNul bs
unfolding lacks
lacks-NoNul [] h = tt
lacks-NoNul (c ∷ cs) h = (ground (arith, h), lacks-NoNul cs (ground arith))

lacks-OneLine : (bs : List ℕ) → lacks 13 bs ≡ true → OneLine bs
unfolding lacks
lacks-OneLine [] h = tt
lacks-OneLine (c ∷ cs) h = (ground (arith, h), lacks-OneLine cs (ground arith))

request-NoNul : NoNul request
unfolding lacks
request-NoNul = lacks-NoNul request refl

sample_key-OneLine : OneLine sample_key
unfolding lacks
sample_key-OneLine = lacks-OneLine sample_key refl

abbrev request_peer : Peer
request_peer = scripted ([] ∷ request ∷ [])

server_round-upgrade_example :
    server_round request_peer (λ bs. bs) (λ bs. bs) (pos 3) alone
    ≡ ok (
      pos 3,
      record { client_fd = 7; clock = 3; written = response (λ bs. bs) (λ bs. bs) sample_key ∷ [] },
    )
unfolding response sha1_and_encode
server_round-upgrade_example =
    server_round-upgrade request_peer (λ bs. bs) (λ bs. bs) (pos 3) alone 7 request sample_key
      after_key refl refl (omega arith) refl request-NoNul request-valid request-key
      sample_key-OneLine refl
