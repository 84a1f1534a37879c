-- ===== src/CtrlServer.antt =====
-- src/ctrlserver.c: the two servers that take the number of an effect from the network. The system
-- calls are the fields of a `Peer`.
pub mod Command
pub mod Frame
pub mod Upgrade
pub mod Rounds
mod Tests
use c_client.Prelude.{
  ℕ, zero, suc, ◌+◌, ◌-◌, ◌<◌, ◌≤◌, ◌≡◌, Bool, true, false, List, [], ◌∷◌, ◌++◌, length, replicate,
  ◌==◌, if◌then◌else◌,
}
use c_client.Prelude.Int.{ℤ, pos, negsuc}
pub use c_client.Process.{Outcome, ok, exits, fault, and_then, ◌>>=◌, ◌>>◌, pure, exit}

-- `recv` with MSG_DONTWAIT: bytes, or 0 when the client has closed the connection, or -1 with EAGAIN
-- when none are waiting, or -1 with another error.
pub data Received : Type 0 where
  bytes : List ℕ → Received
  hung_up waiting failed : Received

-- `accept`: a descriptor, or -1 with EAGAIN, or -1 with another error.
pub data Accepted : Type 0 where
  client : ℕ → Accepted
  nobody broken : Accepted

-- The answers of the operating system to the calls of a server. Each may depend on a clock that goes
-- on with the calls. `recv` takes no more than it is asked for.
pub record Peer : Type 0 where
  pub recv : ℕ → ℕ → Received
  pub recv_bounded :
      (call n : ℕ) (bs : List ℕ) → recv call n ≡ bytes bs → (0 < length bs) × (length bs ≤ n)
  pub accept : ℕ → Accepted
  pub write : ℕ → List ℕ → ℤ
  pub closes : ℕ → Bool

-- `ctrl_server`, less the listening socket, with the clock and what was written to clients.
pub record Server : Type 0 where
  pub client_fd : ℕ
  pub clock : ℕ
  pub written : List (List ℕ)

abbrev pub Action : Type 0 → Type 0
Action A = Server → Outcome (A × Server)

tick : Server → Server
tick s = record s { clock = s.clock + 1 }

module _ (p : Peer) where
  -- The number of bytes and the buffer of `len` bytes that they are read into, cleared first.
  unfoldable pub get_latest_input : ℕ → Action (ℤ × List ℕ)
  unfolding tick
  get_latest_input len s = elim (p.recv s.clock len) [
    | bytes bs ↦ ok ((pos (length bs), bs ++ replicate (len - length bs) 0), tick s)
    | hung_up ↦ ok ((pos 0, replicate len 0), tick s)
    | waiting ↦ ok ((negsuc 0, replicate len 0), tick s)
    | failed ↦ exits
  ]

  unfoldable pub try_accept_conn : Action ℕ
  unfolding tick
  try_accept_conn s = elim (p.accept s.clock) [
    | client fd ↦ ok (fd, tick s)
    | nobody ↦ ok (0, tick s)
    | broken ↦ exits
  ]

  unfoldable pub close_client : Action (Unit {0})
  unfolding tick
  close_client s = if p.closes s.clock then ok (tt, record (tick s) { client_fd = 0 }) else exits
