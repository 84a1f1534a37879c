-- ===== src/Opc/Connect.antt =====
-- `opc_connect` and `opc_close`: what they do to the sink, and that they send no byte.
use c_client.Prelude.{
  ℕ, ◌+◌, ◌<◌, ◌≡◌, refl, ◌≢◌, ◌∙◌, inl, inr, Bool, true, false, some, List, [], ◌∷◌, ◌++◌,
  append-nil, append_assoc, if◌then◌else◌, ◌==◌, length, get_elem?, get_elem?-lt, store-Stored,
  Bool-cases, Returns, returns, Returns-bind, Returns-mono, ◌>>=◌,
}
use c_client.Prelude.Int.{ℤ, negsuc, eq_ℤ}
use c_client.Opc.{
  SinkInfo, Event, sent, closed, Client, Connecting, connected, in_progress, refused, Kernel,
  is_open, find_sink, set_sockid, log_event, close_info, opc_close, open_connection, opc_connect,
}

-- The bytes that a descriptor has been sent.
pub received : ℤ → List Event → List ℕ
received sock [] = []
received sock (sent s bytes ∷ log) = (if eq_ℤ s sock then bytes else []) ++ received sock log
received sock (closed s ∷ log) = received sock log

pub received-sent :
    (sock s : ℤ) (bytes : List ℕ) (log : List Event)
    → received sock (log ++ (sent s bytes ∷ []))
      ≡ received sock log ++ (if eq_ℤ s sock then bytes else [])
unfolding received
received-sent sock s bytes [] = append-nil _
received-sent sock s bytes (sent t b ∷ log) = rw (received-sent sock s bytes log, append_assoc)
received-sent sock s bytes (closed t ∷ log) = received-sent sock s bytes log

pub received-closed :
    (sock s : ℤ) (log : List Event) → received sock (log ++ (closed s ∷ [])) ≡ received sock log
unfolding received
received-closed sock s [] = refl
received-closed sock s (sent t b ∷ log) = rw (received-closed sock s log)
received-closed sock s (closed t ∷ log) = received-closed sock s log

-- What a call that sends nothing leaves: the tables but the entry of sink `i`, and the bytes.
pub record Quiet (i : ℕ) (c c' : Client) : Type 0 where
  pub next : c'.next_sink ≡ c.next_sink
  pub size : length c'.sinks ≡ length c.sinks
  pub others : (j : ℕ) → i ≢ j → get_elem? c'.sinks j ≡ get_elem? c.sinks j
  pub bytes : (sock : ℤ) → received sock c'.log ≡ received sock c.log

-- the descriptor of sink `i` is set, and nothing is sent
record Reset (i : ℕ) (info : SinkInfo) (sock : ℤ) (c c' : Client) : Type 0 where
  quiet : Quiet i c c'
  entry : get_elem? c'.sinks i ≡ some (record info { sockid = sock })

module _ (i : ℕ) (info : SinkInfo) where
  set_sockid-Reset :
      (sock : ℤ) (c : Client)
      → i < length c.sinks
      → Returns (Reset i info sock c) (set_sockid i info sock c)
  unfolding set_sockid
  set_sockid-Reset sock c lt =
      Returns-bind (store-Stored c.sinks i (record info { sockid = sock }) lt) λ sinks st.
        returns (record {
          quiet = record { next = refl; size = st.size; others = st.elsewhere; bytes = λ s. refl };
          entry = st.here;
        })

  -- The sink has no open connection, and nothing was sent.
  pub record Closed (c c' : Client) : Type 0 where
    pub quiet : Quiet i c c'
    pub sink : (new : SinkInfo) × (get_elem? c'.sinks i ≡ some new) × (is_open new.sockid ≡ false)

  pub opc_close-Closed :
      (sink : ℤ) (c : Client)
      → find_sink sink c ≡ some i
      → get_elem? c.sinks i ≡ some info
      → Returns (Closed c) (opc_close sink c)
  unfolding opc_close close_info log_event
  opc_close-Closed sink c found entry = elim (Bool-cases (is_open info.sockid)) [
    | inr shut ↦
        rw (found, opc_close, entry, shut)
          (returns (record {
            quiet = record { next = refl; size = refl; others = λ j ne. refl; bytes = λ s. refl };
            sink = (info, entry, shut);
          }))
    | inl open_ ↦
        rw (found, opc_close, entry, open_)
          (Returns-mono (set_sockid-Reset (negsuc 0) _ (get_elem?-lt c.sinks i entry)) λ c' r.
            record {
              quiet = record {
                next = r.quiet.next;
                size = r.quiet.size;
                others = r.quiet.others;
                bytes = λ s. r.quiet.bytes s ∙ received-closed s info.sockid c.log;
              };
              sink = (record info { sockid = negsuc 0 }, r.entry, refl);
            })
  ]

  -- The sink's connection is open exactly when the call says so; one that was open is kept. Nothing
  -- was sent.
  pub record Connected (c : Client) (result : Bool × Client) : Type 0 where
    pub quiet : Quiet i c result.1
    pub sink :
        (new : SinkInfo) × (get_elem? result.1.sinks i ≡ some new)
        × (is_open new.sockid ≡ result.0)
        × (is_open info.sockid ≡ true → new.sockid ≡ info.sockid)

  module _ (k : Kernel) (c : Client) (entry : get_elem? c.sinks i ≡ some info) where
    given_up :
        is_open info.sockid ≡ false
        → Returns (Connected c) (some (false, record c { calls = c.calls + 4 }))
    given_up shut = returns (record {
      quiet = record { next = refl; size = refl; others = λ j ne. refl; bytes = λ s. refl };
      sink = (info, entry, shut, λ o. cc);
    })

    failed :
        (sock : ℤ)
        → is_open info.sockid ≡ false
        → Returns
            (Connected c)
            (some (false, record c { calls = c.calls + 4; log = c.log ++ (closed sock ∷ []) }))
    failed sock shut = returns (record {
      quiet = record {
        next = refl;
        size = refl;
        others = λ j ne. refl;
        bytes = λ s. received-closed s sock c.log;
      };
      sink = (info, entry, shut, λ o. cc);
    })

    made :
        (sock : ℤ)
        → is_open info.sockid ≡ false
        → is_open sock ≡ true
        → Returns
            (Connected c)
            (set_sockid i info sock (record c { calls = c.calls + 4 }) >>= λ c''. some (true, c''))
    made sock shut good =
        Returns-bind (set_sockid-Reset sock _ (get_elem?-lt c.sinks i entry)) λ c'' r.
          returns (record {
            quiet = record {
              next = r.quiet.next;
              size = r.quiet.size;
              others = r.quiet.others;
              bytes = r.quiet.bytes;
            };
            sink = (record info { sockid = sock }, r.entry, good, λ o. cc);
          })

    open_connection-Connected :
        is_open info.sockid ≡ false → Returns (Connected c) (open_connection k i info c)
    unfolding open_connection log_event
    open_connection-Connected shut =
        by_answers (k.connect (c.calls + 1)) refl (k.writable (c.calls + 2)) refl
          (k.so_error (c.calls + 3) == 0) refl
      where
        good_socket : k.connect (c.calls + 1) ≢ refused → is_open (k.socket c.calls) ≡ true
        good_socket ne = elim (Bool-cases (is_open (k.socket c.calls))) [
          | inl good ↦ good
          | inr bad ↦ absurd (ne (k.bad_socket c.calls bad))
        ]

        by_answers :
            (answer : Connecting)
            → k.connect (c.calls + 1) ≡ answer
            → (ready : Bool) → k.writable (c.calls + 2) ≡ ready
            → (clean : Bool) → (k.so_error (c.calls + 3) == 0) ≡ clean
            → Returns (Connected c) (open_connection k i info c)
        by_answers refused e ready er clean ec = rw (e, open_connection) (failed _ shut)
        by_answers connected e false er clean ec = rw (e, open_connection, er) (given_up shut)
        by_answers connected e true er false ec = rw (e, open_connection, er, ec) (failed _ shut)
        by_answers connected e true er true ec =
            rw (e, open_connection, er, ec) (made _ shut (good_socket λ r. cc))
        by_answers in_progress e false er clean ec = rw (e, open_connection, er) (given_up shut)
        by_answers in_progress e true er false ec = rw (e, open_connection, er, ec) (failed _ shut)
        by_answers in_progress e true er true ec =
            rw (e, open_connection, er, ec) (made _ shut (good_socket λ r. cc))

    pub opc_connect-Connected :
        (sink : ℤ) → find_sink sink c ≡ some i → Returns (Connected c) (opc_connect k sink c)
    unfolding opc_connect
    opc_connect-Connected sink found = elim (Bool-cases (is_open info.sockid)) [
      | inl open_ ↦
          rw (found, opc_connect, entry, open_)
            (returns (record {
              quiet = record { next = refl; size = refl; others = λ j ne. refl; bytes = λ s. refl };
              sink = (info, entry, open_, λ o. refl);
            }))
      | inr shut ↦ rw (found, opc_connect, entry, shut) (open_connection-Connected shut)
    ]
