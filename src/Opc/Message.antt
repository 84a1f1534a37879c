-- ===== src/Opc/Message.antt =====
-- `opc_put_pixels` and `opc_put_pixel_list`: the message on the wire.
use c_client.Prelude.{
  ℕ, ◌+◌, ◌*◌, ◌/◌, ◌%◌, ◌<◌, ◌≤◌, ◌≡◌, refl, ◌≢◌, ◌↔◌, ap, ◌∙◌, Bool, true, false, some, List, [],
  ◌∷◌, ◌++◌, append_assoc, arith, if◌then◌else◌, length, get_elem?, take, Returns, returns,
  Returns-bind, Returns-mono,
}
use c_client.Prelude.Int.{ℤ, eq_ℤ}
use c_client.Extension.{num_strips, max_strip_size, Pixel, PixelInfo}
use c_client.Pixel.{GridMemory}
use c_client.Pixel.Fill.{Given}
use c_client.Opc.{
  SinkInfo, Client, Kernel, is_open, find_sink, opc_send, opc_put_pixels, opc_put_pixel_list,
  header, pixel_bytes,
}
use c_client.Opc.Connect.{received}
use c_client.Opc.Sending.{Sent, Outcome, Transferred, opc_send-Sent, find_sink-next}
use c_client.Opc.Strips.Sizes.{AllWired}
use c_client.Opc.Strips.Organise.{Organised, organise-Organised}

length-pixel_bytes : (ps : List Pixel) → length (pixel_bytes ps) ≡ 3 * length ps
length-pixel_bytes [] = refl
length-pixel_bytes (p ∷ ps) = omega (arith, length-pixel_bytes ps)

-- A receiver reads the length of the data from the header's last two bytes. For a `uint16_t` count
-- it is the number of bytes that follow exactly if the count is at most 21845.
pub header-length :
    (channel count : ℕ)
    → count < 65536
    → ((high low : ℕ) × (header channel (count * 3) ≡ channel ∷ 0 ∷ high ∷ low ∷ [])
        × (high < 256)
        × (low < 256)
        × ((high * 256 + low ≡ count * 3) ↔ (count ≤ 21845)))
unfolding header
header-length channel count h = (
  count * 3 / 256 % 256,
  count * 3 % 256,
  refl,
  omega arith,
  omega arith,
  (λ same. omega arith, λ small. omega arith),
)

take-header : (channel len : ℕ) → take 4 (header channel len) ≡ header channel len
unfolding header
take-header channel len = refl

module _ (k : Kernel) (sink : ℤ) (i : ℕ) (info : SinkInfo) (channel count : ℕ) (pixels : List Pixel)
    (c : Client) where
  -- What a call of `opc_put_pixels` leaves. After a success the sink's connection has received the
  -- header and the colours of the pixels.
  pub record Put (result : Bool × Client) : Type 0 where
    pub next : result.1.next_sink ≡ c.next_sink
    pub others : (j : ℕ) → i ≢ j → get_elem? result.1.sinks j ≡ get_elem? c.sinks j
    pub sink_after :
        (new : SinkInfo) × (get_elem? result.1.sinks i ≡ some new) × (is_open new.sockid ≡ result.0)
    pub message :
        result.0 ≡ true
        → (new : SinkInfo) × (get_elem? result.1.sinks i ≡ some new)
          × (received new.sockid result.1.log
              ≡ received new.sockid c.log
                ++ (header channel (count * 3) ++ take (count * 3) (pixel_bytes pixels)))
          × ((s : ℤ) → eq_ℤ new.sockid s ≡ false → received s result.1.log ≡ received s c.log)

  head_failed :
      (c1 : Client) → Sent i info (header channel (count * 3)) 4 c (false, c1) → Put (false, c1)
  head_failed c1 st =
      let (new, e, (_, _, _, _, shut)) = st.outcome in
      record { next = st.next; others = st.others; sink_after = (new, e, shut); message = λ t. cc }

  both-Sent :
      (c1 c2 : Client) (done : Bool) (mid : SinkInfo)
      → get_elem? c1.sinks i ≡ some mid
      → c1.next_sink ≡ c.next_sink
      → ((j : ℕ) → i ≢ j → get_elem? c1.sinks j ≡ get_elem? c.sinks j)
      → Outcome i info (header channel (count * 3)) 4 c mid (true, c1)
      → Sent i mid (pixel_bytes pixels) (count * 3) c1 (done, c2)
      → Put (done, c2)
  both-Sent c1 c2 false mid e en others (t, open_, _) st =
      let (new, e', (_, _, _, _, shut)) = st.outcome in
      record {
        next = st.next ∙ en;
        others = λ j ne. st.others j ne ∙ others j ne;
        sink_after = (new, e', shut);
        message = λ h. cc;
      }
  both-Sent c1 c2 true mid e en others (t, open_, _) st =
      let (new, e', (t', open_', kept)) = st.outcome in
      let same : new.sockid ≡ mid.sockid = kept open_ in
      record {
        next = st.next ∙ en;
        others = λ j ne. st.others j ne ∙ others j ne;
        sink_after = (new, e', open_');
        message = λ h.
            (new, e', whole new same t', λ s ne. t'.foreign s ne ∙ t.foreign s (rw (← same) ne));
      }
    where
      whole :
          (new : SinkInfo)
          → new.sockid ≡ mid.sockid
          → Transferred new.sockid (pixel_bytes pixels) (count * 3) c1 c2
          → received new.sockid c2.log
            ≡ received new.sockid c.log
              ++ (header channel (count * 3) ++ take (count * 3) (pixel_bytes pixels))
      whole new same t' =
          let first : received new.sockid c1.log
              ≡ received new.sockid c.log ++ header channel (count * 3) =
            rw same (
              t.own ∙ ap (λ l. received mid.sockid c.log ++ l) (take-header channel (count * 3))) in
          t'.own ∙ rw (first, append_assoc)

  -- On a sink that exists, with colours for `count` pixels, `opc_put_pixels` ends as described.
  pub opc_put_pixels-Put :
      find_sink sink c ≡ some i
      → get_elem? c.sinks i ≡ some info
      → count ≤ length pixels
      → Returns Put (opc_put_pixels k sink channel count pixels c)
  unfolding opc_put_pixels
  opc_put_pixels-Put found entry room =
      Returns-bind
        (opc_send-Sent i info (header channel (count * 3)) 4 c k sink found (omega arith) entry)
        λ (done, c1) st. after done c1 st
    where
      after :
          (done : Bool) (c1 : Client)
          → Sent i info (header channel (count * 3)) 4 c (done, c1)
          → Returns Put (
              if done
              then opc_send k sink (pixel_bytes pixels) (count * 3) c1
              else some (false, c1))
      after false c1 st = returns (head_failed c1 st)
      after true c1 st =
          let (mid, e, out) = st.outcome in
          Returns-mono
            (opc_send-Sent i mid (pixel_bytes pixels) (count * 3) c1 k sink
              (find_sink-next sink c c1 st.next ∙ found) (omega (arith, length-pixel_bytes pixels))
              e)
            λ (d, c2) st'. both-Sent c1 c2 d mid e st.next st.others out st'

-- With a wired layout and a colour for each of its pixels, memory for its grid and list, and on a
-- sink that exists, `opc_put_pixel_list` does not fault and returns 0, whether or not the message got through. The
-- message is the organised list's, as `opc_put_pixels` sends it on channel 0.
pub opc_put_pixel_list-Put :
    (k : Kernel) (sink : ℤ) (i : ℕ) (info : SinkInfo) (pixels : List Pixel) (infos : List PixelInfo)
    (strips : GridMemory) (c : Client)
    → find_sink sink c ≡ some i
    → get_elem? c.sinks i ≡ some info
    → AllWired infos
    → length infos ≤ length pixels
    → Given num_strips max_strip_size strips
    → Returns
        (λ (result : ℕ × Client).
          (result.0 ≡ 0)
          × (out : List Pixel) × Organised pixels infos out
          × (sent : Bool) × Put k sink i info 0 471 out c (sent, result.1))
        (opc_put_pixel_list k sink pixels infos strips true c)
unfolding opc_put_pixel_list
opc_put_pixel_list-Put k sink i info pixels infos strips c found entry wired fits given =
    Returns-bind (organise-Organised pixels infos strips wired fits given) λ out o.
      Returns-bind
        (opc_put_pixels-Put k sink i info 0 471 out c found entry (omega (arith, o.size)))
        λ (sent, c') p. returns (refl, out, o, sent, p)
