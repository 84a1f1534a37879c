-- ===== src/CtrlServer/Frame/Text.antt =====
-- What `read_ws_frame` makes of the frames that a client sends.
use c_client.Prelude.{
  ℕ, zero, suc, ◌+◌, ◌-◌, ◌%◌, ◌<◌, ◌≤◌, ◌≡◌, refl, ◌≢◌, ap, ◌∙◌, ◌⊎◌, inl, inr, true, List, [],
  ◌∷◌, ◌++◌, append-nil, arith, length, replicate, ◌==◌, lt→ltb, le→ltb, NoNul, c_string-append,
  xor_twice, Bool-cases,
}
use c_client.Prelude.Int.{pos, negsuc}
use c_client.CtrlServer.{Peer, Server, bytes, waiting, hung_up, ok, exits, get_latest_input}
use c_client.CtrlServer.Command.{try_get_command}
use c_client.CtrlServer.Frame.{
  byte_at, unmask, frame_command, read_payload, read_length, read_ws_frame, rsv_of, opcode_of,
  mask_of, len_of,
}

abbrev pub AreBytes : List ℕ → Type 0
AreBytes [] = Unit {0}
AreBytes (b ∷ bs) = (b < 256) × AreBytes bs

byte_at-lt : (bs : List ℕ) (i : ℕ) → AreBytes bs → byte_at bs i < 256
byte_at-lt [] i h = omega arith
byte_at-lt (b ∷ bs) zero h = h.0
byte_at-lt (b ∷ bs) (suc i) h = byte_at-lt bs i h.1

-- Masking with the same key twice gives the text back.
pub unmask-unmask :
    (key : List ℕ) (i : ℕ) (text : List ℕ)
    → AreBytes key
    → AreBytes text
    → unmask key i (unmask key i text) ≡ text
unfolding unmask
unmask-unmask key i [] hk ht = refl
unmask-unmask key i (b ∷ bs) hk ht = rw (
  xor_twice b (byte_at key (i % 4)) ht.0 (byte_at-lt key (i % 4) hk),
  unmask-unmask key (i + 1) bs hk ht.1,
)

length-unmask : (key : List ℕ) (i : ℕ) (text : List ℕ) → length (unmask key i text) ≡ length text
unfolding unmask
length-unmask key i [] = refl
length-unmask key i (b ∷ bs) = ap suc (length-unmask key (i + 1) bs)

replicate-zero : (n : ℕ) → n ≡ 0 → replicate {A = ℕ} n 0 ≡ []
replicate-zero n e = rw e

-- A read that fills the buffer.
get_whole :
    (p : Peer) (s : Server) (n : ℕ) (bs : List ℕ)
    → p.recv s.clock n ≡ bytes bs
    → length bs ≡ n
    → get_latest_input p n s ≡ ok ((pos n, bs), record s { clock = s.clock + 1 })
unfolding get_latest_input
get_whole p s n bs e len =
    rw (e, get_latest_input, replicate-zero (n - length bs) (omega arith), append-nil, len)

-- The client's four parts of a masked frame of one of the first 125 lengths, of which no reserved
-- bit is set: the two bytes of the header, the key and the masked text, each read whole.
pub record Sends (p : Peer) (call first : ℕ) (key text : List ℕ) : Type 0 where
  pub header : p.recv call 1 ≡ bytes (first ∷ [])
  pub length_byte : p.recv (call + 1) 1 ≡ bytes ((128 + length text) ∷ [])
  pub key_bytes : p.recv (call + 2) 4 ≡ bytes key
  pub payload : p.recv (call + 3) (length text) ≡ bytes (unmask key 0 text)
  pub unreserved : rsv_of first ≡ 0
  pub key_len : length key ≡ 4
  pub key_range : AreBytes key
  pub text_range : AreBytes text
  pub text_len : (0 < length text) × (length text ≤ 125)

frame_command-text :
    (text : List ℕ)
    → NoNul text
    → frame_command 1 (text ++ (0 ∷ [])) ≡ try_get_command text (negsuc 2)
unfolding frame_command
frame_command-text text h = ap (λ t. try_get_command t (negsuc 2)) (c_string-append text [] h)

module _ (p : Peer) where
  read_payload-Sends :
      (s : Server) (opcode : ℕ) (key text : List ℕ)
      → p.recv s.clock 4 ≡ bytes key
      → p.recv (s.clock + 1) (length text) ≡ bytes (unmask key 0 text)
      → length key ≡ 4
      → AreBytes key
      → AreBytes text
      → 0 < length text
      → read_payload p opcode (length text) s
        ≡ ok (frame_command opcode (text ++ (0 ∷ [])), record s { clock = s.clock + 2 })
  unfolding read_payload
  read_payload-Sends s opcode key text ek et lk hk ht some_text =
      let next = record s { clock = s.clock + 1 } in
      let two : s.clock + 1 + 1 ≡ s.clock + 2 = omega arith in
      rw (
        get_whole p s 4 key ek lk,
        lt→ltb 0 (length text) some_text,
        get_whole p next (length text) (unmask key 0 text) et (length-unmask key 0 text),
        lt→ltb 0 (length text) some_text,
        unmask-unmask key 0 text hk ht,
        two,
      )

  read_length-Sends :
      (s : Server) (opcode : ℕ) (key text : List ℕ)
      → p.recv s.clock 1 ≡ bytes ((128 + length text) ∷ [])
      → p.recv (s.clock + 1) 4 ≡ bytes key
      → p.recv (s.clock + 2) (length text) ≡ bytes (unmask key 0 text)
      → length key ≡ 4
      → AreBytes key
      → AreBytes text
      → (0 < length text) × (length text ≤ 125)
      → read_length p opcode s
        ≡ ok (frame_command opcode (text ++ (0 ∷ [])), record s { clock = s.clock + 3 })
  unfolding read_length
  read_length-Sends s opcode key text el ek et lk hk ht len =
      let next = record s { clock = s.clock + 1 } in
      let two : s.clock + 1 + 1 ≡ s.clock + 2 = omega arith in
      let three : s.clock + 1 + 2 ≡ s.clock + 3 = omega arith in
      let masked : (mask_of (128 + length text) == 1) ≡ true = ground arith in
      let payload_len : len_of (128 + length text) ≡ length text = omega arith in
      rw
        (
          get_whole p s 1 ((128 + length text) ∷ []) el refl,
          masked,
          payload_len,
          le→ltb 125 (length text) len.1,
        )
        (read_payload-Sends next opcode key text ek (rw two et) lk hk ht len.0
          ∙ ap (λ c. ok (frame_command opcode (text ++ (0 ∷ [])), record s { clock = c })) three)

  -- A masked frame with the opcode for text, whose text has no NUL and comes in four whole reads, is
  -- the command that the text names, or -3.
  pub read_ws_frame-Sends :
      (s : Server) (first : ℕ) (key text : List ℕ)
      → Sends p s.clock first key text
      → opcode_of first ≡ 1
      → NoNul text
      → read_ws_frame p s ≡ ok (try_get_command text (negsuc 2), record s { clock = s.clock + 4 })
  unfolding read_ws_frame
  read_ws_frame-Sends s first key text sends text_frame no_nul =
      let next = record s { clock = s.clock + 1 } in
      let two : s.clock + 1 + 1 ≡ s.clock + 2 = omega arith in
      let three : s.clock + 1 + 2 ≡ s.clock + 3 = omega arith in
      let four : s.clock + 1 + 3 ≡ s.clock + 4 = omega arith in
      rw (get_whole p s 1 (first ∷ []) sends.header refl, sends.unreserved, text_frame, ← four)
        (read_length-Sends next 1 key text sends.length_byte (rw two sends.key_bytes)
            (rw three sends.payload) sends.key_len sends.key_range sends.text_range sends.text_len
          ∙ ap (λ c. ok (c, record s { clock = s.clock + 1 + 3 })) (frame_command-text text no_nul))

  -- When no byte is waiting, or the client has hung up, the result is -1 in both cases, and no other
  -- call is made.
  pub read_ws_frame-idle :
      (s : Server)
      → (p.recv s.clock 1 ≡ waiting) ⊎ (p.recv s.clock 1 ≡ hung_up)
      → read_ws_frame p s ≡ ok (negsuc 0, record s { clock = s.clock + 1 })
  unfolding read_ws_frame get_latest_input
  read_ws_frame-idle s (inl e) = rw (e, get_latest_input)
  read_ws_frame-idle s (inr e) = rw (e, get_latest_input)

  read_length-exits :
      (s : Server) (opcode second : ℕ)
      → p.recv s.clock 1 ≡ bytes (second ∷ [])
      → (mask_of second ≢ 1) ⊎ (125 < len_of second)
      → read_length p opcode s ≡ exits
  unfolding read_length
  read_length-exits s opcode second e bad = elim (Bool-cases (mask_of second == 1)) [
    | inr unmasked ↦ rw (get_whole p s 1 (second ∷ []) e refl, unmasked)
    | inl masked ↦
        let long : 125 < len_of second = ground arith in
        rw (get_whole p s 1 (second ∷ []) e refl, masked, lt→ltb 125 (len_of second) long)
  ]

  -- A first byte with a reserved bit, or a second byte without the mask bit or with a length above
  -- 125, ends the process.
  pub read_ws_frame-exits :
      (s : Server) (first second : ℕ)
      → p.recv s.clock 1 ≡ bytes (first ∷ [])
      → p.recv (s.clock + 1) 1 ≡ bytes (second ∷ [])
      → (rsv_of first ≢ 0) ⊎ (mask_of second ≢ 1) ⊎ (125 < len_of second)
      → read_ws_frame p s ≡ exits
  unfolding read_ws_frame
  read_ws_frame-exits s first second e e' bad = elim (Bool-cases (rsv_of first == 0)) [
    | inr reserved ↦ rw (get_whole p s 1 (first ∷ []) e refl, reserved)
    | inl clean ↦
        let rest : (mask_of second ≢ 1) ⊎ (125 < len_of second) = ground arith in
        rw (get_whole p s 1 (first ∷ []) e refl, clean)
          (read_length-exits (record s { clock = s.clock + 1 }) (opcode_of first) second e' rest)
  ]
