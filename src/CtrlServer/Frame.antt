-- ===== src/CtrlServer/Frame.antt =====
-- `read_ws_frame` of src/ctrlserver.c: one frame from the client, as a command.
pub mod Text
use Prim.Native.Nat.{bit_xor}
use c_client.Prelude.{
  ℕ, zero, suc, ◌+◌, ◌-◌, ◌*◌, ◌/◌, ◌%◌, Bool, true, false, List, [], ◌∷◌, ◌++◌, ltb, leb, ◌==◌,
  if◌then◌else◌, c_string,
}
use c_client.Prelude.Int.{ℤ, pos, negsuc}
use c_client.CtrlServer.{Peer, Server, Action, ◌>>=◌, pure, exit, get_latest_input}
use c_client.CtrlServer.Command.{try_get_command}

abbrev pub ws_masking_key_len : ℕ
ws_masking_key_len = 4

-- read > 0
abbrev pub is_positive : ℤ → Bool
is_positive (pos n) = ltb 0 n
is_positive (negsuc n) = false

-- The element of an array at an index in range.
abbrev pub byte_at : List ℕ → ℕ → ℕ
byte_at [] i = 0
byte_at (b ∷ bs) zero = b
byte_at (b ∷ bs) (suc i) = byte_at bs i

-- The loop that applies the mask to the payload, from index `i` on.
unfoldable pub unmask : List ℕ → ℕ → List ℕ → List ℕ
unmask key i [] = []
unmask key i (b ∷ bs) = bit_xor b (byte_at key (i % 4)) ∷ unmask key (i + 1) bs

-- byte & 0x70, shifted right; byte & 0xf; byte & 0x80; byte & 0x7f
abbrev pub rsv_of : ℕ → ℕ
rsv_of byte = byte / 16 % 8

abbrev pub opcode_of : ℕ → ℕ
opcode_of byte = byte % 16

abbrev pub mask_of : ℕ → ℕ
mask_of byte = byte / 128 % 2

abbrev pub len_of : ℕ → ℕ
len_of byte = byte % 128

-- The switch over the opcode.
unfoldable pub frame_command : ℕ → List ℕ → ℤ
frame_command opcode decoded =
    if ltb 0 opcode
    then (if opcode == 1
        then try_get_command (c_string decoded) (negsuc 2)
        else if opcode == 8
        then pos 0
        else if opcode == 9
        then pos 0
        else pos 0)
    else pos 0

module _ (p : Peer) where
  -- From the masking key on.
  unfoldable pub read_payload : ℕ → ℕ → Action ℤ
  unfolding unmask frame_command
  read_payload opcode payload_len = do
    (key_read, masking_key) ← get_latest_input p ws_masking_key_len
    if is_positive key_read
        then (if ltb 0 payload_len
            then (do
              (payload_read, payload) ← get_latest_input p payload_len
              if is_positive payload_read
                  then pure (frame_command opcode (unmask masking_key 0 payload ++ (0 ∷ [])))
                  else pure (negsuc 0))
            else pure (negsuc 0))
        else pure (negsuc 0)

  -- From the second byte on.
  unfoldable pub read_length : ℕ → Action ℤ
  read_length opcode = do
    (read, second) ← get_latest_input p 1
    if is_positive read
        then (if mask_of (byte_at second 0) == 1
            then (if ltb 125 (len_of (byte_at second 0))
                then exit
                else read_payload opcode (len_of (byte_at second 0)))
            else exit)
        else pure (negsuc 0)

  unfoldable pub read_ws_frame : Action ℤ
  read_ws_frame = do
    (read, first) ← get_latest_input p 1
    if is_positive read
        then (if rsv_of (byte_at first 0) == 0
            then read_length (opcode_of (byte_at first 0))
            else exit)
        else pure (negsuc 0)
