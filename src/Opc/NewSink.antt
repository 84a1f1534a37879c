-- ===== src/Opc/NewSink.antt =====
-- The sinks that `opc_new_sink` makes.
use native.Mathlib.Decide.{dec_lt}
use c_client.Prelude.{
  ℕ, ◌+◌, ◌%◌, ◌^◌, ◌<◌, ◌≡◌, refl, ◌≢◌, ap, ◌∙◌, true, false, Option, some, none, List, [], ◌∷◌,
  ◌++◌, arith, ltb, leb, ◌==◌, length, get_elem?, get_elem?-some, store-Stored, Returns, returns,
  Returns-bind,
}
use c_client.Prelude.Int.{ℤ, pos, negsuc, eq_ℤ}
use c_client.Strtol.{strtol_10}
use c_client.Strtol.Decimal.{digits, Stops-nil, strtol_10-digits}
use c_client.Strings.Tokens.{Avoids}
use c_client.Opc.{Client, find_sink}
use c_client.Opc.Sinks.{
  AddrInfo, opc_default_port, at_colon, host_and_port, host_of, to_uint16, any_inet, opc_resolve,
  opc_new_sink,
}

at_colon-append :
    (name port : List ℕ) → Avoids b':' name → at_colon (name ++ (b':' ∷ port)) ≡ some (name, port)
unfolding at_colon
at_colon-append [] port h = refl
at_colon-append (c ∷ cs) port h =
    let plain : (c == b':') ≡ false = ground (arith, h.0) in
    rw (plain, at_colon-append cs port h.1) refl

host_and_port-colon :
    (s name port : List ℕ)
    → at_colon s ≡ some (name, port)
    → host_and_port s ≡ (host_of name, (strtol_10 port).result)
unfolding host_and_port
host_and_port-colon s name port e = rw (host_and_port, e) refl

-- "host:port" names the host and the port.
host_and_port-digits :
    (c : ℕ) (cs : List ℕ) (port : ℕ)
    → Avoids b':' (c ∷ cs)
    → 0 < port
    → port < 2 ^ 63
    → host_and_port ((c ∷ cs) ++ (b':' ∷ digits port port [])) ≡ (c ∷ cs, pos port)
unfolding host_of
host_and_port-digits c cs port h positive small =
    host_and_port-colon ((c ∷ cs) ++ (b':' ∷ digits port port [])) (c ∷ cs) (digits port port [])
      (at_colon-append (c ∷ cs) (digits port port []) h)
    ∙ ap (λ p. (c ∷ cs, p.result)) (strtol_10-digits port [] Stops-nil positive small)

pub opc_resolve-first :
    (getaddrinfo : List ℕ → Option (List AddrInfo)) (s name : List ℕ) (port : ℕ) (first : AddrInfo)
    (more : List AddrInfo)
    → host_and_port s ≡ (name, pos port)
    → 0 < port
    → port < 65536
    → getaddrinfo name ≡ some (first ∷ more)
    → first.inet ≡ true
    → opc_resolve getaddrinfo s opc_default_port ≡ some (some (first.address, port))
unfolding opc_resolve any_inet to_uint16
opc_resolve-first getaddrinfo s name port first more parsed positive small known inet =
    let used : eq_ℤ (pos port) (pos 0) ≡ false = ground arith in
    let cut : port % 65536 ≡ port = omega arith in
    rw (opc_resolve, parsed, known, inet, parsed, used, cut) refl

module _ (getaddrinfo : List ℕ → Option (List AddrInfo)) (c : Client)
    (whole : length c.sinks ≡ 64) where
  -- What a new sink leaves: it is the next one, not connected yet, and the others are as before.
  pub record NewSink (address port : ℕ) (result : ℤ × Client) : Type 0 where
    pub code : result.0 ≡ pos c.next_sink
    pub found : find_sink result.0 result.1 ≡ some c.next_sink
    pub entry :
        get_elem? result.1.sinks c.next_sink
        ≡ some (record { address = address; port = port; sockid = negsuc 0 })
    pub others : (j : ℕ) → c.next_sink ≢ j → get_elem? result.1.sinks j ≡ get_elem? c.sinks j
    pub next : result.1.next_sink ≡ c.next_sink + 1
    pub size : length result.1.sinks ≡ 64

  -- With the table of 64 entries and a free one, and for a text "host:port" with a host that is not
  -- empty and has no colon, and a port from 1 to 65535 in decimal, when `getaddrinfo` finds a list for
  -- the host whose first entry is an IPv4 address, `opc_new_sink` does not fault and returns the next
  -- sink. It exists then, with that address and port and no connection; the other entries are as
  -- before, and one more sink is counted.
  pub opc_new_sink-NewSink :
      (ch : ℕ) (chs : List ℕ) (port : ℕ) (first : AddrInfo) (more : List AddrInfo)
      → c.next_sink < 64
      → Avoids b':' (ch ∷ chs)
      → 0 < port
      → port < 65536
      → getaddrinfo (ch ∷ chs) ≡ some (first ∷ more)
      → first.inet ≡ true
      → Returns
          (NewSink first.address port)
          (opc_new_sink getaddrinfo ((ch ∷ chs) ++ (b':' ∷ digits port port [])) c)
  unfolding opc_new_sink find_sink
  opc_new_sink-NewSink ch chs port first more room plain positive small known inet =
      let (info, at) = get_elem?-some c.sinks c.next_sink (omega (arith, whole)) in
      let free : leb 64 c.next_sink ≡ false = ground arith in
      let resolved =
        opc_resolve-first getaddrinfo ((ch ∷ chs) ++ (b':' ∷ digits port port [])) (ch ∷ chs) port
          first more (host_and_port-digits ch chs port plain positive (omega arith)) positive small
          known inet in
      let is_next : ltb c.next_sink (c.next_sink + 1) ≡ true = ground arith in
      rw (opc_new_sink, free, at, resolved)
        (Returns-bind
          (store-Stored c.sinks c.next_sink
            (record { address = first.address; port = port; sockid = negsuc 0 })
            (omega (arith, whole)))
          λ sinks stored. returns (record {
            code = refl;
            found = rw is_next refl;
            entry = stored.here;
            others = stored.elsewhere;
            next = refl;
            size = stored.size ∙ whole;
          }))

  -- What a call that makes no sink leaves.
  pub record NoSink (result : ℤ × Client) : Type 0 where
    pub code : result.0 ≡ negsuc 0
    pub next : result.1.next_sink ≡ c.next_sink
    pub others : (j : ℕ) → c.next_sink ≢ j → get_elem? result.1.sinks j ≡ get_elem? c.sinks j
    pub size : length result.1.sinks ≡ 64

  -- Without a free entry, or when no IPv4 address is found, -1 is returned and no sink is counted.
  pub opc_new_sink-NoSink :
      (hostport : List ℕ)
      → ((c.next_sink < 64) → opc_resolve getaddrinfo hostport opc_default_port ≡ some none)
      → Returns NoSink (opc_new_sink getaddrinfo hostport c)
  unfolding opc_new_sink
  opc_new_sink-NoSink hostport unresolved = elim (dec_lt c.next_sink 64) [
    | yes room ↦
        let (info, at) = get_elem?-some c.sinks c.next_sink (omega (arith, whole)) in
        let free : leb 64 c.next_sink ≡ false = ground arith in
        rw (opc_new_sink, free, at, unresolved room)
          (Returns-bind
            (store-Stored c.sinks c.next_sink (record info { sockid = negsuc 0 })
              (omega (arith, whole)))
            λ sinks stored. returns (record {
              code = refl;
              next = refl;
              others = stored.elsewhere;
              size = stored.size ∙ whole;
            }))
    | no full ↦
        let taken : leb 64 c.next_sink ≡ true = ground arith in
        rw (opc_new_sink, taken)
          (returns (record { code = refl; next = refl; others = λ j ne. refl; size = whole }))
  ]
