-- ===== src/CtrlServer/Upgrade.antt =====
-- The upgrade to a WebSocket in src/ctrlserver.c. SHA-1 and base64, of OpenSSL, are the arguments
-- `sha1` and `base64`.
pub mod Response
use c_client.Prelude.{
  codes, ℕ, zero, suc, ◌+◌, ◌-◌, Bool, true, false, ◌&&◌, Option, none, some, List, [], ◌∷◌, ◌++◌,
  length, take, ltb, leb, ◌==◌, if◌then◌else◌,
}
use c_client.Prelude.Int.{ℤ, pos, negsuc}
use c_client.CtrlServer.{Peer, Server, Action, ◌>>=◌, ok, exits, fault, pure, exit}
use c_client.CtrlServer.Frame.{is_positive}

abbrev pub crlf : List ℕ
crlf = 13 ∷ 10 ∷ []

abbrev pub request_method : List ℕ
request_method = codes "GET / HTTP/"

abbrev pub request_upgrade : List ℕ
request_upgrade = codes "Connection: Upgrade" ++ crlf

abbrev pub upgrade_to_ws_header : List ℕ
upgrade_to_ws_header = codes "Upgrade: websocket" ++ crlf

abbrev pub ws_key_header : List ℕ
ws_key_header = codes "Sec-WebSocket-Key: "

abbrev pub ws_key_magic : List ℕ
ws_key_magic = codes "258EAFA5-E914-47DA-95CA-C5AB0DC85B11"

abbrev pub response_start : List ℕ
response_start =
    codes "HTTP/1.1 101 Switching Protocols"
    ++ (crlf
        ++ (codes "Upgrade: websocket"
            ++ (crlf ++ (codes "Connection: Upgrade" ++ (crlf ++ codes "Sec-WebSocket-Accept: ")))))

abbrev pub response_end : List ℕ
response_end = crlf ++ crlf

abbrev pub sha1_encoded_len : ℕ
sha1_encoded_len = 28

unfoldable pub is_prefix : List ℕ → List ℕ → Bool
is_prefix [] text = true
is_prefix (c ∷ cs) [] = false
is_prefix (c ∷ cs) (d ∷ ds) = c == d && is_prefix cs ds

-- strstr: the text from the first occurrence on.
unfoldable pub strstr : List ℕ → List ℕ → Option (List ℕ)
unfolding is_prefix
strstr needle [] = if is_prefix needle [] then some [] else none
strstr needle (c ∷ cs) =
    let rest = strstr needle cs in if is_prefix needle (c ∷ cs) then some (c ∷ cs) else rest

-- strchr: the text from the first such character on.
unfoldable pub strchr : ℕ → List ℕ → Option (List ℕ)
strchr x [] = none
strchr x (c ∷ cs) = let rest = strchr x cs in if c == x then some (c ∷ cs) else rest

contains : List ℕ → List ℕ → Bool
unfolding strstr
contains needle text = elim (strstr needle text) [ none ↦ false | some _ ↦ true ]

starts_with : List ℕ → List ℕ → Bool
unfolding strstr
starts_with needle text = elim (strstr needle text) [
  | none ↦ false
  | some found ↦ length found == length text
]

unfoldable pub is_valid_http_upgrade : List ℕ → Bool
unfolding contains starts_with
is_valid_http_upgrade request =
    starts_with request_method request
    && contains request_upgrade request
    && contains upgrade_to_ws_header request
    && contains ws_key_header request

module _ (sha1 base64 : List ℕ → List ℕ) where
  -- The first 28 characters of the encoded hash.
  unfoldable pub sha1_and_encode : List ℕ → List ℕ
  sha1_and_encode key = take sha1_encoded_len (base64 (sha1 key))

  module _ (p : Peer) where
    write_response : List ℕ → Action ℕ
    unfolding sha1_and_encode
    write_response key s =
        let response = response_start ++ (sha1_and_encode (key ++ ws_key_magic) ++ response_end) in
        ok (
          (if is_positive (p.write s.clock response) then 0 else 1),
          record s { clock = s.clock + 1; written = s.written ++ (response ∷ []) },
        )

    -- The key ends in front of a carriage return.
    read_key : List ℕ → Action ℕ
    read_key key_start = elim (strchr 13 key_start) [
      | none ↦ exit
      | some key_end ↦ write_response (take (length key_start - length key_end) key_start)
    ]

    -- strchr (..., ' ') + 1 is never NULL; where there is no blank it is the address 1.
    find_key : List ℕ → Action ℕ
    find_key key_header_start = elim (strchr b' ' key_header_start) [
      | none ↦ exit
      | some [] ↦ exit
      | some (c ∷ key_start) ↦
          if length key_header_start == length key_start + length ws_key_header
          then read_key key_start
          else exit
    ]

    unfoldable pub upgrade_to_ws : List ℕ → Action ℕ
    unfolding find_key read_key write_response
    upgrade_to_ws request = elim (strstr ws_key_header request) [
      | none ↦ λ s. fault
      | some key_header_start ↦ find_key key_header_start
    ]

    unfoldable pub try_to_upgrade : List ℕ → Action ℕ
    try_to_upgrade request = if is_valid_http_upgrade request then upgrade_to_ws request else pure 1
