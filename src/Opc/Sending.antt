-- ===== src/Opc/Sending.antt =====
-- `opc_send`: a call that reports success has sent the whole message on the sink's connection, and
-- one that fails has sent a proper prefix and leaves the connection closed.
use c_client.Prelude.{
  ℕ, zero, suc, ◌+◌, ◌-◌, ◌<◌, ◌≤◌, ◌≡◌, refl, ◌≢◌, sym, ap, ◌∙◌, ◌⊎◌, inl, inr, Bool, true, false,
  some, none, List, [], ◌∷◌, ◌++◌, append-nil, append_assoc, arith, if◌then◌else◌, ◌==◌, ltb,
  le→ltb, length, get_elem?, take, drop, take-add, Bool-cases, Returns, returns, Returns-bind,
  ◌>>=◌,
}
use c_client.Prelude.Int.{ℤ, pos, negsuc, eq_ℤ, eq_ℤ_refl, pos_part}
use c_client.Opc.{
  SinkInfo, sent, Client, Kernel, is_open, find_sink, opc_close, send_loop, log_event, opc_send,
}
use c_client.Opc.Connect.{
  received, received-sent, Quiet, Closed, opc_close-Closed, Connected, opc_connect-Connected,
}

-- The first `m` bytes of the message went to the descriptor, and nothing to any other.
pub record Transferred (sock : ℤ) (bytes : List ℕ) (m : ℕ) (c c' : Client) : Type 0 where
  pub own : received sock c'.log ≡ received sock c.log ++ take m bytes
  pub foreign : (s : ℤ) → eq_ℤ sock s ≡ false → received s c'.log ≡ received s c.log

-- what the loop leaves
record LoopDone (sock : ℤ) (bytes : List ℕ) (len : ℕ) (c : Client) (result : Bool × Client)
    : Type 0 where
  sinks : result.1.sinks ≡ c.sinks
  next : result.1.next_sink ≡ c.next_sink
  count : (m : ℕ) × Transferred sock bytes m c result.1 × (if result.0 then m ≡ len else m < len)

module _ (k : Kernel) (sock : ℤ) (bytes : List ℕ) (len : ℕ) (c0 : Client) where
  record Looping (total : ℕ) (c : Client) : Type 0 where
    sinks : c.sinks ≡ c0.sinks
    next : c.next_sink ≡ c0.next_sink
    transferred : Transferred sock bytes total c0 c

  Looping-sent :
      (total n calls : ℕ) (c : Client)
      → Looping total c
      → Looping
          (total + n)
          (record c { calls = calls; log = c.log ++ (sent sock (take n (drop total bytes)) ∷ []) })
  Looping-sent total n calls c p = record {
    sinks = p.sinks;
    next = p.next;
    transferred = record {
      own =
          received-sent sock sock (take n (drop total bytes)) c.log
          ∙ rw (eq_ℤ_refl sock, p.transferred.own, append_assoc, take-add);
      foreign = λ s ne.
          received-sent s sock (take n (drop total bytes)) c.log
          ∙ rw (ne, append-nil) (p.transferred.foreign s ne);
    };
  }

  -- One byte of progress a round: as much fuel as bytes left, and one round more, is enough.
  send_loop-LoopDone :
      (fuel total : ℕ) (c : Client)
      → total ≤ len
      → len < total + fuel
      → Looping total c
      → Returns (LoopDone sock bytes len c0) (send_loop k fuel sock bytes len total c)
  unfolding send_loop log_event
  send_loop-LoopDone zero total c le enough p = absurd (omega arith)
  send_loop-LoopDone (suc f) total c le enough p = elim (Bool-cases (ltb total len)) [
    | inr end ↦ rw end (
        returns
          (record { sinks = p.sinks; next = p.next; count = (total, p.transferred, ground arith) }))
    | inl more ↦
        let n = pos_part (k.send c.calls (len - total)) in
        let bounded : n ≤ len - total = k.send_bounded c.calls (len - total) in
        let lt : total < len = ground arith in
        elim (Bool-cases (n == 0)) [
          | inl stop ↦
              rw (more, stop)
                (returns (record {
                  sinks = p.sinks;
                  next = p.next;
                  count = (
                    total,
                    record { own = p.transferred.own; foreign = p.transferred.foreign },
                    lt,
                  );
                }))
          | inr go ↦
              let positive : n ≢ 0 = ground arith in
              rw (more, go)
                (send_loop-LoopDone f (total + n) _ (omega arith) (omega arith)
                  (Looping-sent total n (c.calls + 1) c p))
        ]
  ]

pub find_sink-next :
    (sink : ℤ) (c c' : Client) → c'.next_sink ≡ c.next_sink → find_sink sink c' ≡ find_sink sink c
unfolding find_sink
find_sink-next (negsuc n) c c' e = refl
find_sink-next (pos i) c c' e = rw e

module _ (i : ℕ) (info : SinkInfo) (bytes : List ℕ) (len : ℕ) (c : Client) where
  -- After a success the whole message went to the sink's open connection, which is the one that was
  -- open before, if one was. After a failure a part of the message went out, and the sink has no
  -- open connection.
  abbrev pub Outcome : SinkInfo → Bool × Client → Type 0
  Outcome new (true, c') =
      Transferred new.sockid bytes len c c'
      × (is_open new.sockid ≡ true)
      × (is_open info.sockid ≡ true → new.sockid ≡ info.sockid)
  Outcome new (false, c') =
      (sock : ℤ) × (m : ℕ) × Transferred sock bytes m c c'
      × ((m < len) ⊎ (m ≡ 0))
      × (is_open new.sockid ≡ false)

  -- What a call of `opc_send` leaves: the other sinks, and the outcome for this one.
  pub record Sent (result : Bool × Client) : Type 0 where
    pub next : result.1.next_sink ≡ c.next_sink
    pub size : length result.1.sinks ≡ length c.sinks
    pub others : (j : ℕ) → i ≢ j → get_elem? result.1.sinks j ≡ get_elem? c.sinks j
    pub outcome : (new : SinkInfo) × (get_elem? result.1.sinks i ≡ some new) × Outcome new result

  aborted :
      (sock : ℤ) (m : ℕ) (c1 c2 c3 : Client) (old : SinkInfo)
      → (m < len) ⊎ (m ≡ 0)
      → Quiet i c c1
      → Transferred sock bytes m c1 c2
      → c2.sinks ≡ c1.sinks
      → c2.next_sink ≡ c1.next_sink
      → Closed i old c2 c3
      → Sent (false, c3)
  aborted sock m c1 c2 c3 old part q t es en cl =
      let (new, e, shut) = cl.sink in
      record {
        next = cl.quiet.next ∙ en ∙ q.next;
        size = cl.quiet.size ∙ ap length es ∙ q.size;
        others = λ j ne. cl.quiet.others j ne ∙ ap (λ l. get_elem? l j) es ∙ q.others j ne;
        outcome = (
          new,
          e,
          (
            sock,
            m,
            record {
              own = cl.quiet.bytes sock ∙ t.own ∙ ap (λ l. l ++ take m bytes) (q.bytes sock);
              foreign = λ s ne. cl.quiet.bytes s ∙ t.foreign s ne ∙ q.bytes s;
            },
            part,
            shut,
          ),
        );
      }

  completed :
      (c1 c2 : Client) (new : SinkInfo)
      → get_elem? c1.sinks i ≡ some new
      → is_open new.sockid ≡ true
      → (is_open info.sockid ≡ true → new.sockid ≡ info.sockid)
      → Quiet i c c1
      → Transferred new.sockid bytes len c1 c2
      → c2.sinks ≡ c1.sinks
      → c2.next_sink ≡ c1.next_sink
      → Sent (true, c2)
  completed c1 c2 new e open_ kept q t es en = record {
    next = en ∙ q.next;
    size = ap length es ∙ q.size;
    others = λ j ne. ap (λ l. get_elem? l j) es ∙ q.others j ne;
    outcome = (
      new,
      ap (λ l. get_elem? l i) es ∙ e,
      (
        record {
          own = t.own ∙ ap (λ l. l ++ take len bytes) (q.bytes new.sockid);
          foreign = λ s ne. t.foreign s ne ∙ q.bytes s;
        },
        open_,
        kept,
      ),
    );
  }

  module _ (k : Kernel) (sink : ℤ) (found : find_sink sink c ≡ some i)
      (room : len ≤ length bytes) where
    -- The part of `opc_send` behind the connection.
    transmit :
        (c1 : Client) (new : SinkInfo)
        → Quiet i c c1
        → get_elem? c1.sinks i ≡ some new
        → is_open new.sockid ≡ true
        → (is_open info.sockid ≡ true → new.sockid ≡ info.sockid)
        → Returns Sent (
            send_loop k (len + 1) new.sockid bytes len 0 c1 >>= λ (done, c2).
            if done then some (true, c2) else (opc_close sink c2 >>= λ c3. some (false, c3)))
    transmit c1 new q e open_ kept =
        Returns-bind
          (send_loop-LoopDone k new.sockid bytes len c1 (len + 1) 0 c1 (omega arith) (omega arith)
            (record {
              sinks = refl;
              next = refl;
              transferred = record { own = sym (append-nil _); foreign = λ s ne. refl };
            }))
          λ (done, c2) l. after done c2 l
      where
        still_found : (c2 : Client) → c2.next_sink ≡ c1.next_sink → find_sink sink c2 ≡ some i
        still_found c2 en = find_sink-next sink c c2 (en ∙ q.next) ∙ found

        after :
            (done : Bool) (c2 : Client)
            → LoopDone new.sockid bytes len c1 (done, c2)
            → Returns Sent
                (if done then some (true, c2) else (opc_close sink c2 >>= λ c3. some (false, c3)))
        after true c2 l =
            let (m, t, whole) = l.count in
            returns (completed c1 c2 new e open_ kept q (rw (← whole) t) l.sinks l.next)
        after false c2 l =
            let (m, t, part) = l.count in
            Returns-bind
              (opc_close-Closed i new sink c2 (still_found c2 l.next)
                (ap (λ s. get_elem? s i) l.sinks ∙ e))
              λ c3 cl. returns (aborted new.sockid m c1 c2 c3 new (inl part) q t l.sinks l.next cl)

    refused_first :
        (c1 : Client) (new : SinkInfo)
        → Quiet i c c1
        → get_elem? c1.sinks i ≡ some new
        → is_open new.sockid ≡ false
        → Sent (false, c1)
    refused_first c1 new q e shut =
        aborted new.sockid 0 c1 c1 c1 new (inr refl) q
          (record { own = sym (append-nil _); foreign = λ s ne. refl }) refl refl
          (record {
            quiet = record { next = refl; size = refl; others = λ j ne. refl; bytes = λ s. refl };
            sink = (new, e, shut);
          })

    -- On a sink that exists, with a buffer that holds the message, `opc_send` ends, and leaves one of
    -- the two outcomes.
    pub opc_send-Sent : get_elem? c.sinks i ≡ some info → Returns Sent (opc_send k sink bytes len c)
    unfolding opc_send
    opc_send-Sent entry =
        rw (found, opc_send)
          (Returns-bind (opc_connect-Connected i info k c entry sink found)
            λ (ready, c1) cn. after ready c1 cn)
      where
        after :
            (ready : Bool) (c1 : Client)
            → Connected i info c (ready, c1)
            → Returns Sent (
                if ready
                then (get_elem? c1.sinks i >>= λ new.
                    if ltb (length bytes) len
                    then none
                    else (send_loop k (len + 1) new.sockid bytes len 0 c1 >>= λ (done, c2).
                        if done
                        then some (true, c2)
                        else (opc_close sink c2 >>= λ c3. some (false, c3))))
                else some (false, c1))
        after false c1 cn =
            let (new, e, shut, kept) = cn.sink in returns (refused_first c1 new cn.quiet e shut)
        after true c1 cn =
            let (new, e, open_, kept) = cn.sink in
            rw (e, le→ltb (length bytes) len room) (transmit c1 new cn.quiet e open_ kept)
