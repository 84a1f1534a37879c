-- ===== src/CtrlServer/Upgrade/Response.antt =====
-- What `try_to_upgrade` answers.
use c_client.Prelude.{
  ℕ, ◌+◌, ◌-◌, ◌≡◌, refl, ◌≢◌, ap, ◌∙◌, true, false, none, some, List, [], ◌∷◌, ◌++◌, arith, length,
  length-append, take, ◌==◌, if◌then◌else◌,
}
use c_client.CtrlServer.{Peer, Server, ok, exits}
use c_client.CtrlServer.Frame.{is_positive}
use c_client.CtrlServer.Upgrade.{
  ws_key_header, ws_key_magic, response_start, response_end, strstr, strchr, is_valid_http_upgrade,
  sha1_and_encode, write_response, read_key, find_key, upgrade_to_ws, try_to_upgrade,
}

-- No carriage return.
abbrev pub OneLine : List ℕ → Type 0
OneLine [] = Unit {0}
OneLine (c ∷ cs) = (c ≢ 13) × OneLine cs

strchr-append :
    (key rest : List ℕ) → OneLine key → strchr 13 (key ++ (13 ∷ rest)) ≡ some (13 ∷ rest)
unfolding strchr
strchr-append [] rest h = refl
strchr-append (c ∷ cs) rest h = ground (arith, strchr-append cs rest h.1)

strchr-none : (text : List ℕ) → OneLine text → strchr 13 text ≡ none
unfolding strchr
strchr-none [] h = refl
strchr-none (c ∷ cs) h = ground (arith, strchr-none cs h.1)

take-append : (xs ys : List ℕ) (n : ℕ) → n ≡ length xs → take n (xs ++ ys) ≡ xs
take-append [] ys n e = rw e
take-append (x ∷ xs) ys n e = rw e (ap (λ t. x ∷ t) (take-append xs ys (length xs) refl))

-- The answer of RFC 6455 to a key.
unfoldable pub response : (sha1 base64 : List ℕ → List ℕ) → List ℕ → List ℕ
response sha1 base64 key =
    response_start ++ (sha1_and_encode sha1 base64 (key ++ ws_key_magic) ++ response_end)

module _ (sha1 base64 : List ℕ → List ℕ) (p : Peer) where
  find_key-header :
      (key_start : List ℕ) (s : Server)
      → find_key sha1 base64 p (ws_key_header ++ key_start) s ≡ read_key sha1 base64 p key_start s
  unfolding find_key strchr
  find_key-header key_start s =
      let same : (length (ws_key_header ++ key_start) == length key_start + 19) ≡ true =
        ground arith in
      rw same

  answered :
      (s : Server) (key rest : List ℕ)
      → OneLine key
      → read_key sha1 base64 p (key ++ (13 ∷ rest)) s
        ≡ ok (
          (if is_positive (p.write s.clock (response sha1 base64 key)) then 0 else 1),
          record s { clock = s.clock + 1; written = s.written ++ (response sha1 base64 key ∷ []) },
        )
  unfolding read_key write_response response
  answered s key rest line = rw (
    strchr-append key rest line,
    read_key,
    take-append key (13 ∷ rest) (length (key ++ (13 ∷ rest)) - length (13 ∷ rest))
        (omega (arith, length-append key (13 ∷ rest))),
  )

  unanswered : (s : Server) (key : List ℕ) → OneLine key → read_key sha1 base64 p key s ≡ exits
  unfolding read_key
  unanswered s key line = rw (strchr-none key line, read_key)

  upgrade_to_ws-found :
      (s : Server) (request key_header_start : List ℕ)
      → strstr ws_key_header request ≡ some key_header_start
      → upgrade_to_ws sha1 base64 p request s ≡ find_key sha1 base64 p key_header_start s
  unfolding upgrade_to_ws
  upgrade_to_ws-found s request key_header_start found = rw (found, upgrade_to_ws)

  module _ (s : Server) (request : List ℕ) where
    -- A request that is not valid is refused, and nothing is written. In a valid one the line of the
    -- key is answered with the response to the key, and the result says whether it was written; a
    -- line of the key that does not end ends the process.
    pub try_to_upgrade_lem :
        (is_valid_http_upgrade request ≡ false → try_to_upgrade sha1 base64 p request s ≡ ok (1, s))
        × ((key rest : List ℕ)
            → is_valid_http_upgrade request ≡ true
            → strstr ws_key_header request ≡ some (ws_key_header ++ (key ++ (13 ∷ rest)))
            → OneLine key
            → try_to_upgrade sha1 base64 p request s
              ≡ ok (
                (if is_positive (p.write s.clock (response sha1 base64 key)) then 0 else 1),
                record s {
                  clock = s.clock + 1;
                  written = s.written ++ (response sha1 base64 key ∷ []);
                },
              ))
        × ((key : List ℕ)
            → is_valid_http_upgrade request ≡ true
            → strstr ws_key_header request ≡ some (ws_key_header ++ key)
            → OneLine key
            → try_to_upgrade sha1 base64 p request s ≡ exits)
    unfolding try_to_upgrade
    try_to_upgrade_lem = (
      λ invalid. rw invalid,
      λ key rest valid found line.
          rw valid (
            upgrade_to_ws-found s request _ found ∙ find_key-header _ s ∙ answered s key rest line),
      λ key valid found line.
          rw valid
            (upgrade_to_ws-found s request _ found ∙ find_key-header key s ∙ unanswered s key line),
    )
