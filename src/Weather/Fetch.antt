-- ===== src/Weather/Fetch.antt =====
-- One value from the network: `weather_get_val_for_xy`.
use mathlib.Core.Option.{some-ne-none}
use c_client.Prelude.{
  ℕ, ◌+◌, ◌≡◌, refl, ap, sym, ◌∙◌, true, inl, inr, Bool-cases, Option-cases, Option, none, some, [],
  ◌∷◌, ◌++◌, take, codes, c_string, if◌then◌else◌,
}
use c_client.Prelude.Int.{ℤ, pos, ltb_ℤ, ltb_ℤ-pos, pos_part}
use c_client.Extension.{Double, Geolocation}
use c_client.Process.{Outcome, ok, Ends, ends, Ends-bind, ◌>>=◌, ◌>>◌, pure}
use c_client.ApiManager.{
  Bytes, Internet, Traffic, Json, failure, has_nul, format, request_text, request_buffer,
  socket_close, inner_object, get_double_from_json,
}
use c_client.ApiManager.Request.{
  Connects, connected, socket_connect-Connects, answer, Terminated, Asked, code_of,
  answer-Terminated, get_data_for_geolocation-Asked,
}
use c_client.Weather.{weather_host, weather_path, will_owm_api_key, weather_get_val_for_xy}

-- The path of a request.
abbrev pub path_of : (Double → Bytes) → Geolocation → Bytes
path_of print geo =
    codes "data/2.5/weather?lat="
    ++ (print geo.latitude
        ++ (codes "&lon=" ++ (print geo.longitude ++ (codes "&appid=" ++ will_owm_api_key))))

format-weather_path :
    (print : Double → Bytes) (geo : Geolocation)
    → format weather_path (print geo.latitude ∷ print geo.longitude ∷ will_owm_api_key ∷ [])
      ≡ some (path_of print geo)
unfolding format
format-weather_path print geo = refl

module _ {V O : Type 0} (net : Internet) (json : Json V O) (print : Double → Bytes)
    (junk buf : Bytes) (geo : Geolocation) (attr object : Bytes) where
  -- The number in an answer.
  pub number_in : Bytes → Option Double
  number_in b = elim (inner_object json (c_string b) object) [
    | none ↦ none
    | some obj ↦ some (json.get_number obj attr)
  ]

  -- The value after the calls `write` and `read`.
  pub value_at : ℕ → Option Double
  value_at call = elim (answer net junk buf call) [ none ↦ none | some b ↦ number_in b ]

  -- What the fetch of a value leaves, from a connection on: the request on the new socket, and the
  -- value if an answer has it. Without a value the socket stays open.
  pub record Fetched (t : Traffic) (fd : ℕ) (result : Option Double × Traffic) : Type 0 where
    pub value : result.0 ≡ value_at (t.calls + 1 + 1 + 1)
    pub opened : result.1.opened ≡ t.opened ++ (pos fd ∷ [])
    pub sent :
        result.1.sent
        ≡ t.sent
          ++ ((
            pos fd,
            take
                (pos_part (net.write (t.calls + 1 + 1 + 1) 300))
                (request_buffer (request_text weather_host (path_of print geo)) junk),
          )
              ∷ [])
    pub open_ : result.0 ≡ none → result.1.closed ≡ t.closed
    pub closed :
        (d : Double)
        → result.0 ≡ some d
        → ((call : ℕ) → net.close call ≡ true)
        → result.1.closed ≡ t.closed ++ (pos fd ∷ [])

  -- What is left to do after the request, and after the answer is read.
  closed_with : ℕ → Option Double → Traffic → Outcome (Option Double × Traffic)
  closed_with fd none = pure none
  closed_with fd (some d) = socket_close net (pos fd) >> pure (some d)

  after : ℕ → ℤ × Bytes → Traffic → Outcome (Option Double × Traffic)
  after fd (code, b) =
      if ltb_ℤ code (pos 0)
      then pure none
      else (get_double_from_json json b attr object >>= closed_with fd)

  abbrev request : Bytes
  request = request_text weather_host (path_of print geo)

  get_double_from_json-number_in :
      (b : Bytes) (t : Traffic)
      → has_nul b ≡ true
      → get_double_from_json json b attr object t ≡ ok (number_in b, t)
  unfolding get_double_from_json number_in inner_object
  get_double_from_json-number_in b t nul = elim (Option-cases (json.parse_string (c_string b))) [
    | inl wrong ↦ rw (get_double_from_json, number_in, nul, wrong) refl
    | inr (root, parsed) ↦ elim (Bool-cases (json.is_object root)) [
      | inl is ↦ rw (get_double_from_json, number_in, nul, parsed, is) refl
      | inr other ↦ rw (get_double_from_json, number_in, nul, parsed, other) refl
    ]
  ]

  -- Without a value nothing more is done.
  Fetched-none :
      (t : Traffic) (fd : ℕ) (t' : Traffic) (result : ℤ × Bytes)
      → Asked net junk buf (connected net t fd) (pos fd) request (result, t')
      → value_at (t.calls + 1 + 1 + 1) ≡ none
      → Fetched t fd (none, t')
  Fetched-none t fd t' result asked nothing = record {
    value = sym nothing;
    opened = asked.opened;
    sent = asked.sent;
    open_ = λ _. asked.closed;
    closed = λ d some_. absurd (some-ne-none d (sym some_));
  }

  module _ (t : Traffic) (fd : ℕ) (nul : Terminated net junk buf) where
    got-number :
        (b : Bytes) (t' : Traffic) (result : ℤ × Bytes)
        → Asked net junk buf (connected net t fd) (pos fd) request (result, t')
        → value_at (t.calls + 1 + 1 + 1) ≡ number_in b
        → Ends (Fetched t fd) (closed_with fd (number_in b) t')
    unfolding closed_with socket_close
    got-number b t' result asked value = elim (Option-cases (number_in b)) [
      | inl nothing ↦ rw nothing (ends (Fetched-none t fd t' result asked (value ∙ nothing)))
      | inr (d, number) ↦ elim (Bool-cases (net.close t'.calls)) [
        | inl closes ↦
            rw (closed_with, number, closes)
              (ends (record {
                value = sym (value ∙ number);
                opened = asked.opened;
                sent = asked.sent;
                open_ = λ none_. absurd (some-ne-none d none_);
                closed = λ d' same always. ap (λ fds. fds ++ (pos fd ∷ [])) asked.closed;
              }))
        | inr fails ↦
            rw (closed_with, number, fails)
              (ends (record {
                value = sym (value ∙ number);
                opened = asked.opened;
                sent = asked.sent;
                open_ = λ none_. absurd (some-ne-none d none_);
                closed = λ d' same always. let closes = always t'.calls in cc;
              }))
      ]
    ]

    after-Asked :
        (result : ℤ × Bytes) (t' : Traffic)
        → Asked net junk buf (connected net t fd) (pos fd) request (result, t')
        → Ends (Fetched t fd) (after fd result t')
    unfolding after value_at
    after-Asked result t' asked = elim (Option-cases (answer net junk buf (t.calls + 1 + 1 + 1))) [
      | inl fails ↦
          let coded : result ≡ (failure, buf) =
            asked.coded ∙ ap (code_of net junk buf (connected net t fd) (pos fd) request) fails in
          let nothing : value_at (t.calls + 1 + 1 + 1) ≡ none = rw (value_at, fails) refl in
          rw coded (ends (Fetched-none t fd t' (failure, buf) (rw (← coded) asked) nothing))
      | inr (b, got) ↦
          let coded : result ≡ (pos 0, b) =
            asked.coded ∙ ap (code_of net junk buf (connected net t fd) (pos fd) request) got in
          let value : value_at (t.calls + 1 + 1 + 1) ≡ number_in b = rw (value_at, got) refl in
          rw
            (
              coded,
              get_double_from_json-number_in b t'
                  (answer-Terminated net junk buf nul (t.calls + 1 + 1 + 1) b got),
            )
            (got-number b t' result asked value)
    ]

  -- When the name of the server is known, there is a socket, the connection is accepted, the buffer of
  -- the request has 300 bytes, and a NUL is in the buffer of the answer before and after any answer,
  -- `weather_get_val_for_xy` ends without a fault, whatever `write`, `read`, `close` and the JSON
  -- library answer. It opens one socket and writes the whole buffer of the request to it, as far as
  -- `write` takes it. The value is the number in the answer; there is none if `write` or `read` fails
  -- or the answer is no JSON object, and then the socket stays open. With a value, and if `close`
  -- does not fail, the socket is closed.
  pub weather_get_val_for_xy-Fetched :
      (t : Traffic) (fd : ℕ)
      → Terminated net junk buf
      → Connects net weather_host t fd
      → Ends (Fetched t fd) (weather_get_val_for_xy net json print junk buf geo attr object t)
  unfolding weather_get_val_for_xy after closed_with
  weather_get_val_for_xy-Fetched t fd nul c =
      rw (weather_get_val_for_xy, socket_connect-Connects net weather_host t fd c, ltb_ℤ-pos fd)
        (Ends-bind
          (get_data_for_geolocation-Asked net junk buf print (pos fd) geo weather_host weather_path
            will_owm_api_key (path_of print geo) (connected net t fd) nul
            (format-weather_path print geo))
          λ result t' asked. after-Asked t fd nul result t' asked)
