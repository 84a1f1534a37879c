-- ===== src/ApiManager/Request.antt =====
-- What a request sends and what its answer holds, from the connection on.
use mathlib.Core.Path.{subst}
use mathlib.Core.Option.{some-injective, some-ne-none}
use c_client.Prelude.{
  ℕ, ◌+◌, ◌≡◌, refl, sym, ◌∙◌, true, inl, inr, Bool-cases, Option-cases, Option, none, some, [],
  ◌∷◌, ◌++◌, arith, length, length-append, length-take, length-drop, take, drop, if◌then◌else◌,
}
use c_client.Prelude.Int.{ℤ, pos, ltb_ℤ, ltb_ℤ-pos, pos_part}
use c_client.Extension.{Double, Geolocation}
use c_client.Process.{ok, Ends, ends}
use c_client.ApiManager.{
  Bytes, Internet, Traffic, failure, has_nul, format, request_text, request_buffer, read,
  print_string, send_get_request, get_data_for_geolocation, socket_connect,
}

module _ (net : Internet) where
  -- The calls of `socket_connect` succeed, from the state on, with a descriptor.
  pub record Connects (host : Bytes) (t : Traffic) (fd : ℕ) : Type 0 where
    pub known : net.gethostbyname host t.calls ≡ true
    pub socket : net.socket (t.calls + 1) ≡ pos fd
    pub connect : net.connect (t.calls + 1 + 1) ≡ true

  abbrev pub connected : Traffic → ℕ → Traffic
  connected t fd = record t { calls = t.calls + 1 + 1 + 1; opened = t.opened ++ (pos fd ∷ []) }

  pub socket_connect-Connects :
      (host : Bytes) (t : Traffic) (fd : ℕ)
      → Connects host t fd
      → socket_connect net host t ≡ ok (pos fd, connected t fd)
  unfolding socket_connect
  socket_connect-Connects host t fd c = rw (c.known, c.socket, c.connect) refl

-- A request fills its buffer of 300 bytes.
length-request_buffer :
    (text junk : Bytes) → length junk ≡ 300 → length (request_buffer text junk) ≡ 300
unfolding request_buffer
length-request_buffer text junk size =
    let cut = take 299 text in
    length-append cut (0 ∷ drop (length cut + 1) junk)
    ∙ omega (arith, size, length-take 299 text, length-drop (length cut + 1) junk)

module _ (net : Internet) (junk buf : Bytes) where
  -- The buffer after `write` and `read`, whose calls are these; none if one of them fails.
  pub answer : ℕ → Option Bytes
  answer call =
      if ltb_ℤ (net.write call 300) (pos 0) then none else elim (net.read (call + 1) (length buf)) [
        | none ↦ none
        | some bs ↦ some (bs ++ drop (length bs) buf)
      ]

  -- A NUL is in the buffer, before and after any answer.
  pub record Terminated : Type 0 where
    pub size : length junk ≡ 300
    pub untouched : has_nul buf ≡ true
    pub answered :
        (call : ℕ) (bs : Bytes)
        → net.read call (length buf) ≡ some bs
        → has_nul (bs ++ drop (length bs) buf) ≡ true

  module _ (t : Traffic) (fd : ℤ) (text : Bytes) where
    -- The code and the buffer that are returned.
    abbrev pub code_of : Option Bytes → ℤ × Bytes
    code_of none = (failure, buf)
    code_of (some b) = (pos 0, b)

    -- What a request leaves: the whole buffer was written, as far as `write` took it, and the code
    -- says whether there is an answer.
    pub record Asked (result : (ℤ × Bytes) × Traffic) : Type 0 where
      pub sent :
          result.1.sent
          ≡ t.sent
            ++ ((fd, take (pos_part (net.write t.calls 300)) (request_buffer text junk)) ∷ [])
      pub opened : result.1.opened ≡ t.opened
      pub closed : result.1.closed ≡ t.closed
      pub coded : result.0 ≡ code_of (answer t.calls)

  module _ (print : Double → Bytes) (fd : ℤ) (loc : Geolocation) (host path key request : Bytes)
      (t : Traffic) (nul : Terminated)
      (formatted : format path (print loc.latitude ∷ print loc.longitude ∷ key ∷ [])
        ≡ some request) where
    pub get_data_for_geolocation-Asked :
        Ends
          (Asked t fd (request_text host request))
          (get_data_for_geolocation net print fd loc host path key junk buf t)
    unfolding get_data_for_geolocation send_get_request answer read print_string
    get_data_for_geolocation-Asked =
        let text = request_text host request in
        let whole : length (request_buffer text junk) ≡ 300 =
          length-request_buffer text junk nul.size in
        elim (Bool-cases (ltb_ℤ (net.write t.calls 300) (pos 0))) [
          | inl fails ↦
              rw (get_data_for_geolocation, formatted, whole, fails)
                (ends (record {
                  sent = refl;
                  opened = refl;
                  closed = refl;
                  coded = rw (answer, fails) refl;
                }))
          | inr passes ↦ elim (Option-cases (net.read (t.calls + 1) (length buf))) [
            | inl fails ↦
                rw
                  (
                    get_data_for_geolocation, formatted, whole, passes, read, fails, print_string,
                    nul.untouched,
                  )
                  (ends (record {
                    sent = refl;
                    opened = refl;
                    closed = refl;
                    coded = rw (answer, passes, fails) refl;
                  }))
            | inr (bs, got) ↦
                rw
                  (
                    get_data_for_geolocation,
                    formatted,
                    whole,
                    passes,
                    read,
                    got,
                    print_string,
                    nul.answered (t.calls + 1) bs got,
                    ltb_ℤ-pos (length bs),
                  )
                  (ends (record {
                    sent = refl;
                    opened = refl;
                    closed = refl;
                    coded = rw (answer, passes, got) refl;
                  }))
          ]
        ]

  pub answer-Terminated :
      Terminated → (call : ℕ) (b : Bytes) → answer call ≡ some b → has_nul b ≡ true
  unfolding answer
  answer-Terminated nul call b e = elim (Bool-cases (ltb_ℤ (net.write call 300) (pos 0))) [
    | inl fails ↦ absurd (some-ne-none b (sym e ∙ rw (answer, fails) refl))
    | inr passes ↦ elim (Option-cases (net.read (call + 1) (length buf))) [
      | inl fails ↦ absurd (some-ne-none b (sym e ∙ rw (answer, passes, fails) refl))
      | inr (bs, got) ↦
          let whole : answer call ≡ some (bs ++ drop (length bs) buf) =
            rw (answer, passes, got) refl in
          subst (λ c. has_nul c ≡ true)
            (some-injective (bs ++ drop (length bs) buf) b (sym whole ∙ e))
            (nul.answered (call + 1) bs got)
    ]
  ]
