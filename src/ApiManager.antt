-- ===== src/ApiManager.antt =====
-- src/apimanager.c: requests over the network, and values from their answers. The system calls are
-- the fields of an `Internet`, the calls of the JSON library those of a `Json`.
pub mod Request
use c_client.Prelude.{
  ℕ, ◌+◌, ◌≤◌, ◌≡◌, Bool, true, false, Option, none, some, List, [], ◌∷◌, ◌++◌, length, take, drop,
  ltb, ◌==◌, if◌then◌else◌, codes, c_string, same_text,
}
use c_client.Prelude.Int.{ℤ, pos, negsuc, eq_ℤ, ltb_ℤ, pos_part}
use c_client.Extension.{Double, Geolocation}
use c_client.Process.{Outcome, ok, exits, fault, and_then, ◌>>=◌, ◌>>◌, pure, exit}

abbrev pub Bytes : Type 0
Bytes = List ℕ

-- The answers of the operating system to the calls, which a clock counts: whether a name is known,
-- the descriptor of a new socket, whether it is connected, what `write` returns, what was read, if
-- anything, and whether the socket is closed.
pub record Internet : Type 0 where
  pub gethostbyname : Bytes → ℕ → Bool
  pub socket : ℕ → ℤ
  pub connect : ℕ → Bool
  pub write : ℕ → ℕ → ℤ
  pub read : ℕ → ℕ → Option Bytes
  pub read_bounded : (call n : ℕ) (bs : Bytes) → read call n ≡ some bs → length bs ≤ n
  pub close : ℕ → Bool

-- What the process has done: its system calls so far, the sockets that it opened, what they took, and
-- the sockets that it closed.
pub record Traffic : Type 0 where
  pub calls : ℕ
  pub opened : List ℤ
  pub sent : List (ℤ × Bytes)
  pub closed : List ℤ

abbrev pub Action : Type 0 → Type 0
Action A = Traffic → Outcome (A × Traffic)

-- A fault if the condition does not hold.
abbrev pub require : Bool → Action (Unit {0})
require true t = ok (tt, t)
require false t = fault

abbrev pub failure : ℤ
failure = negsuc 0

tick : Traffic → Traffic
tick t = record t { calls = t.calls + 1 }

unfoldable pub has_nul : Bytes → Bool
has_nul [] = false
has_nul (c ∷ cs) = let rest = has_nul cs in if c == 0 then true else rest

-- `asprintf` with "%f" and "%s" alone, each of which takes the next of the printed arguments; none if
-- there is none left.
replace {ℓ} : {A : Type ℓ} → List Bytes → (Bytes → List Bytes → Option A) → Option A
replace [] f = none
replace (a ∷ more) f = f a more

unfoldable pub format : Bytes → List Bytes → Option Bytes
unfolding replace
format [] args = some []
format (c ∷ []) args = some (c ∷ [])
format (c ∷ d ∷ cs) args = elim (c == b'%') [
  | true ↦ replace args (λ a more. elim (format cs more) [ none ↦ none | some r ↦ some (a ++ r) ])
  | false ↦ elim (format (d ∷ cs) args) [ none ↦ none | some r ↦ some (c ∷ r) ]
]

abbrev pub sunrise_host : Bytes
sunrise_host = codes "api.sunrise-sunset.org"

-- The text of the request.
unfoldable pub request_text : Bytes → Bytes → Bytes
unfolding same_text
request_text host path =
    if same_text host sunrise_host
    then codes "GET /"
      ++ (path
          ++ (codes " HTTP/1.1\r\nHost:" ++ (host ++ codes "\r\nAccept:application/json\r\n\r\n")))
    else codes "GET /"
      ++ (path
          ++ (codes "\r\nHTTP/1.1\r\nHost:" ++ (host ++ codes "\r\nAccept:application/json\r\n")))

-- snprintf (req, 300, ..): at most 299 characters and a NUL, over what the buffer held.
unfoldable pub request_buffer : Bytes → Bytes → Bytes
request_buffer text junk = let cut = take 299 text in cut ++ (0 ∷ drop (length cut + 1) junk)

-- printf ("%s\n", buf): a buffer without a NUL is read out of bounds.
pub print_string : Bytes → Action (Unit {0})
unfolding has_nul
print_string buf = require (has_nul buf)

module _ (net : Internet) where
  write : ℤ → Bytes → Action ℤ
  unfolding tick
  write fd bytes t =
      let n = net.write t.calls (length bytes) in
      ok (n, record (tick t) { sent = t.sent ++ ((fd, take (pos_part n) bytes) ∷ []) })

  -- The result, and the buffer.
  pub read : Bytes → Action (ℤ × Bytes)
  unfolding tick
  read buf t = elim (net.read t.calls (length buf)) [
    | none ↦ ok ((failure, buf), tick t)
    | some bs ↦ ok ((pos (length bs), bs ++ drop (length bs) buf), tick t)
  ]

  -- `junk` is what the buffer of the request holds before, `buf` the caller's buffer.
  unfoldable pub send_get_request : ℤ → Bytes → Bytes → Bytes → Bytes → Action (ℤ × Bytes)
  unfolding write read print_string
  send_get_request sockfd host path junk buf =
      write sockfd (request_buffer (request_text host path) junk) >>= λ written.
      if ltb_ℤ written (pos 0)
      then pure (failure, buf)
      else (read buf >>= λ (count, buf'). print_string buf' >> pure (count, buf'))

  unfoldable pub get_data_for_geolocation :
      (Double → Bytes)
      → ℤ
      → Geolocation
      → Bytes
      → Bytes
      → Bytes
      → Bytes
      → Bytes
      → Action (ℤ × Bytes)
  unfolding send_get_request format
  get_data_for_geolocation print sockfd loc host path key junk buf =
      elim (format path (print loc.latitude ∷ print loc.longitude ∷ key ∷ [])) [
        | none ↦ λ t. fault
        | some request ↦ send_get_request sockfd host request junk buf >>= λ (count, buf').
            if ltb_ℤ count (pos 0) then pure (failure, buf') else pure (pos 0, buf')
      ]

  open_socket : Action ℤ
  unfolding tick
  open_socket t =
      let sock = net.socket t.calls in
      ok (sock, record (tick t) { opened = t.opened ++ (sock ∷ []) })

  -- A call of which only the success is of interest.
  asks : (ℕ → Bool) → Action Bool
  unfolding tick
  asks answer t = ok (answer t.calls, tick t)

  unfoldable pub socket_connect : Bytes → Action ℤ
  unfolding open_socket asks
  socket_connect host = asks (net.gethostbyname host) >>= λ known.
      if known
      then (open_socket >>= λ sock.
          if eq_ℤ sock failure
          then exit
          else (asks net.connect >>= λ connected. if connected then pure sock else exit))
      else exit

  unfoldable pub socket_close : ℤ → Action ℤ
  unfolding tick
  socket_close sockfd t =
      if net.close t.calls
      then ok (pos 0, record (tick t) { closed = t.closed ++ (sockfd ∷ []) })
      else ok (failure, tick t)

-- The calls of the JSON library on its values and objects. An object may be NULL.
pub record Json (V O : Type 0) : Type 0 where
  pub parse_string : Bytes → Option V
  pub is_object : V → Bool
  pub as_object : V → Option O
  pub get_object : Option O → Bytes → Option O
  pub get_number : Option O → Bytes → Double
  pub get_string : Option O → Bytes → Option Bytes

module _ {V O : Type 0} (json : Json V O) where
  -- The object that is looked for, or none when the text is no object.
  unfoldable pub inner_object : Bytes → Bytes → Option (Option O)
  inner_object text object = elim (json.parse_string text) [
    | none ↦ none
    | some root ↦
        if json.is_object root then some (json.get_object (json.as_object root) object) else none
  ]

  -- The number, or none for -1.
  unfoldable pub get_double_from_json : Bytes → Bytes → Bytes → Action (Option Double)
  unfolding inner_object has_nul c_string
  get_double_from_json buf name object =
      require (has_nul buf) >> elim (inner_object (c_string buf) object) [
        | none ↦ pure none
        | some obj ↦ pure (some (json.get_number obj name))
      ]

  -- strncpy (val, str, strlen (str)), which copies no NUL, and the result.
  copy_string : Bytes → Bytes → Action (ℤ × Bytes)
  copy_string str val =
      let val' = str ++ drop (length str) val in
      require (if ltb (length val) (length str) then false else true)
      >> elim val' [ [] ↦ λ t. fault | c ∷ cs ↦ pure (if c == 0 then failure else pos 0, c ∷ cs) ]

  unfoldable pub get_string_from_json : Bytes → Bytes → Bytes → Bytes → Action (ℤ × Bytes)
  unfolding inner_object copy_string has_nul c_string
  get_string_from_json buf name object val =
      require (has_nul buf) >> elim (inner_object (c_string buf) object) [
        | none ↦ pure (failure, val)
        | some obj ↦ elim (json.get_string obj name) [
          | none ↦ λ t. fault
          | some str ↦ copy_string str val
        ]
      ]
