-- ===== src/Opc/Sinks.antt =====
-- src/opc/opc_client.c: `opc_resolve` and `opc_new_sink`. What `getaddrinfo` finds for a name is an
-- argument.
use c_client.Prelude.{
  ℕ, ◌+◌, ◌-◌, ◌%◌, ◌^◌, Bool, true, false, Option, some, none, List, [], ◌∷◌, leb, ◌==◌,
  if◌then◌else◌, get_elem?, codes, store, ◌>>=◌,
}
use c_client.Prelude.Int.{ℤ, pos, negsuc, eq_ℤ}
use c_client.Strtol.{strtol_10}
use c_client.Opc.{Client, opc_max_sinks}

abbrev pub opc_default_port : ℤ
opc_default_port = pos 7890

-- An entry of the list that `getaddrinfo` makes: whether its family is PF_INET, and its address.
pub record AddrInfo : Type 0 where
  pub inet : Bool
  pub address : ℕ

-- strchr (text, ':'): the text before the first colon and behind it.
unfoldable pub at_colon : List ℕ → Option (List ℕ × List ℕ)
at_colon [] = none
at_colon (c ∷ cs) =
    let rest = at_colon cs in
    if c == b':'
    then some ([], cs)
    else elim rest [ none ↦ none | some (name, port) ↦ some (c ∷ name, port) ]

unfoldable pub host_of : List ℕ → List ℕ
host_of [] = codes "localhost"
host_of (c ∷ cs) = c ∷ cs

-- The name that is looked up, and the port, 0 if there is none.
unfoldable pub host_and_port : List ℕ → List ℕ × ℤ
unfolding at_colon host_of
host_and_port s = elim (at_colon s) [
  | none ↦ (s, pos 0)
  | some (name, port) ↦ (host_of name, (strtol_10 port).result)
]

unfoldable pub any_inet : List AddrInfo → Bool
any_inet [] = false
any_inet (a ∷ more) = let rest = any_inet more in if a.inet then true else rest

-- The cast to `uint16_t`.
unfoldable pub to_uint16 : ℤ → ℕ
to_uint16 (pos n) = n % 2 ^ 16
to_uint16 (negsuc n) = 2 ^ 16 - 1 - n % 2 ^ 16

-- When there is an IPv4 address in the list, the address of the list's first entry and the port;
-- `some none` for 0. A list that `getaddrinfo` did not make is read all the same: a fault.
unfoldable pub opc_resolve :
    (List ℕ → Option (List AddrInfo)) → List ℕ → ℤ → Option (Option (ℕ × ℕ))
unfolding host_and_port any_inet to_uint16
opc_resolve getaddrinfo s default_port =
    let (name, port) = host_and_port s in
    getaddrinfo name >>= λ addrs. elim addrs [
      | [] ↦ some none
      | a ∷ more ↦
          if any_inet (a ∷ more)
          then some (some (a.address, to_uint16 (if eq_ℤ port (pos 0) then default_port else port)))
          else some none
    ]

unfoldable pub opc_new_sink :
    (List ℕ → Option (List AddrInfo)) → List ℕ → Client → Option (ℤ × Client)
unfolding opc_resolve
opc_new_sink getaddrinfo hostport c =
    if leb opc_max_sinks c.next_sink
    then some (negsuc 0, c)
    else (get_elem? c.sinks c.next_sink >>= λ info.
        opc_resolve getaddrinfo hostport opc_default_port >>= λ found. elim found [
          | none ↦ store c.sinks c.next_sink (record info { sockid = negsuc 0 }) >>= λ sinks.
              some (negsuc 0, record c { sinks = sinks })
          | some (address, port) ↦
              store c.sinks c.next_sink
                (record { address = address; port = port; sockid = negsuc 0 })
              >>= λ sinks.
                  some (pos c.next_sink, record c { sinks = sinks; next_sink = c.next_sink + 1 })
        ])
