-- ===== src/Opc.antt =====
-- src/opc/opc_client.c: the sinks, their connections, and the messages that carry the pixels. The
-- calls of the operating system are the fields of a `Kernel`.
pub mod Strips
pub mod Connect
pub mod Sending
pub mod Sinks
pub mod NewSink
pub mod Message
mod Tests
use c_client.Prelude.{
  ℕ, zero, suc, ◌+◌, ◌-◌, ◌*◌, ◌/◌, ◌%◌, ◌≤◌, ◌≡◌, Bool, true, false, Option, some, none, List, [],
  ◌∷◌, ◌++◌, ltb, ◌==◌, if◌then◌else◌, length, get_elem?, store, take, drop, ◌>>=◌,
}
use c_client.Prelude.Int.{ℤ, pos, negsuc, pos_part}
use c_client.Extension.{num_pixels, Pixel, PixelInfo}
use c_client.Pixel.{GridMemory}
use c_client.Opc.Strips.{organise}

abbrev pub opc_max_sinks : ℕ
opc_max_sinks = 64

abbrev pub opc_set_pixels : ℕ
opc_set_pixels = 0

-- `opc_sink_info`, less the strings for the log. `sockid` is negative while no connection is open.
pub record SinkInfo : Type 0 where
  pub address : ℕ
  pub port : ℕ
  pub sockid : ℤ

-- What the network has seen: the bytes that a `send` took, and the descriptors closed.
pub data Event : Type 0 where
  sent : ℤ → List ℕ → Event
  closed : ℤ → Event

-- The static tables of the file, a clock that goes on with the system calls, and what the network
-- has seen.
pub record Client : Type 0 where
  pub sinks : List SinkInfo
  pub next_sink : ℕ
  pub calls : ℕ
  pub log : List Event

-- `connect` succeeds at once, or reports EINPROGRESS, or fails otherwise.
pub data Connecting : Type 0 where
  connected in_progress refused : Connecting

abbrev pub is_open : ℤ → Bool
is_open (pos _) = true
is_open (negsuc _) = false

-- The answers of the operating system. Each may depend on the clock, and a `send` on the number of
-- bytes that it is handed, of which it takes no more. A
-- descriptor that `socket` could not give is not connected.
pub record Kernel : Type 0 where
  pub socket : ℕ → ℤ
  pub connect : ℕ → Connecting
  pub writable : ℕ → Bool
  pub so_error : ℕ → ℕ
  pub send : ℕ → ℕ → ℤ
  pub send_bounded : (call n : ℕ) → pos_part (send call n) ≤ n
  pub bad_socket : (call : ℕ) → is_open (socket call) ≡ false → connect (call + 1) ≡ refused

-- The index of a sink that exists.
unfoldable pub find_sink : ℤ → Client → Option ℕ
find_sink (negsuc _) c = none
find_sink (pos i) c = if ltb i c.next_sink then some i else none

pub set_sockid : ℕ → SinkInfo → ℤ → Client → Option Client
set_sockid i info sock c =
    store c.sinks i (record info { sockid = sock }) >>= λ sinks. some (record c { sinks = sinks })

log_event : Event → Client → Client
log_event e c = record c { log = c.log ++ (e ∷ []) }

-- The lines of `opc_close` behind the check of the sink.
close_info : ℕ → SinkInfo → Client → Option Client
unfolding set_sockid log_event
close_info i info c =
    if is_open info.sockid
    then set_sockid i info (negsuc 0) (log_event (closed info.sockid) c)
    else some c

pub opc_close : ℤ → Client → Option Client
unfolding close_info find_sink
opc_close sink c = elim (find_sink sink c) [
  | none ↦ some c
  | some i ↦ get_elem? c.sinks i >>= λ info. close_info i info c
]

abbrev pub pixel_bytes : List Pixel → List ℕ
pixel_bytes [] = []
pixel_bytes (p ∷ ps) = p.r ∷ p.g ∷ p.b ∷ pixel_bytes ps

-- The four bytes of a message's header. Those of the length are cut to eight bits.
pub header : ℕ → ℕ → List ℕ
header channel len = channel ∷ opc_set_pixels ∷ (len / 256 % 256) ∷ (len % 256) ∷ []

module _ (k : Kernel) where
  -- The lines of `opc_connect` behind its two checks. A connection that is not ready in time is
  -- given up, and its descriptor is not closed.
  open_connection : ℕ → SinkInfo → Client → Option (Bool × Client)
  unfolding set_sockid log_event
  open_connection i info c =
      let sock = k.socket c.calls in
      let c' = record c { calls = c.calls + 4 } in
      let failed : Option (Bool × Client) = some (false, log_event (closed sock) c') in
      elim (k.connect (c.calls + 1)) [
        | refused ↦ failed
        | _ ↦
            if k.writable (c.calls + 2)
            then (if k.so_error (c.calls + 3) == 0
                then (set_sockid i info sock c' >>= λ c''. some (true, c''))
                else failed)
            else some (false, c')
      ]

  pub opc_connect : ℤ → Client → Option (Bool × Client)
  unfolding open_connection find_sink
  opc_connect sink c = elim (find_sink sink c) [
    | none ↦ some (false, c)
    | some i ↦ get_elem? c.sinks i >>= λ info.
        if is_open info.sockid then some (true, c) else open_connection i info c
  ]

  -- The loop of `opc_send`, on fuel: each round but the last sends a byte or more.
  pub send_loop : ℕ → ℤ → List ℕ → ℕ → ℕ → Client → Option (Bool × Client)
  unfolding log_event
  send_loop zero sock bytes len total c = none
  send_loop (suc fuel) sock bytes len total c =
      let n = pos_part (k.send c.calls (len - total)) in
      let c' = record c { calls = c.calls + 1 } in
      let rest =
        send_loop fuel sock bytes len (total + n)
          (log_event (sent sock (take n (drop total bytes))) c') in
      if ltb total len then (if n == 0 then some (false, c') else rest) else some (true, c)

  -- A message longer than its bytes would be read out of bounds.
  pub opc_send : ℤ → List ℕ → ℕ → Client → Option (Bool × Client)
  unfolding send_loop
  opc_send sink bytes len c = elim (find_sink sink c) [
    | none ↦ some (false, c)
    | some i ↦ opc_connect sink c >>= λ (ready, c1).
        if ready
        then (get_elem? c1.sinks i >>= λ info.
            if ltb (length bytes) len
            then none
            else (send_loop (len + 1) info.sockid bytes len 0 c1 >>= λ (done, c2).
                if done then some (true, c2) else (opc_close sink c2 >>= λ c3. some (false, c3))))
        else some (false, c1)
  ]

  pub opc_put_pixels : ℤ → ℕ → ℕ → List Pixel → Client → Option (Bool × Client)
  unfolding header
  opc_put_pixels sink channel count pixels c =
      let len = count * 3 in
      opc_send sink (header channel len) 4 c >>= λ (head_sent, c1).
      if head_sent then opc_send sink (pixel_bytes pixels) len c1 else some (false, c1)

  -- The result is always 0. `strips` and `zeroed` are the memory that the call gets.
  pub opc_put_pixel_list :
      ℤ → List Pixel → List PixelInfo → GridMemory → Bool → Client → Option (ℕ × Client)
  opc_put_pixel_list sink pixels pixel_info strips zeroed c =
      organise pixels pixel_info strips zeroed >>= λ organised.
      opc_put_pixels sink 0 num_pixels organised c >>= λ (_, c'). some (0, c')
