-- ===== src/Program.antt =====
-- The threads of the program, which share the command: src/effect_runner.c, `main`, and
-- src/ctrlserver.c, `server` and `basic_server`. A round touches the command under the lock alone, so
-- it counts as one step.
pub mod Safe
pub mod Start
pub mod Own
use c_client.Prelude.{ℕ, ◌≡◌, List}
use c_client.Prelude.Int.{ℤ}
use c_client.CtrlServer.{Peer, Server, ok}
use c_client.CtrlServer.Rounds.{basic_round, server_round}
use c_client.EffectRunner.{Effects, Runner, runner_round}

pub record State (E W : Type 0) : Type 0 where
  pub shared_cmd : ℤ
  pub web : Server
  pub basic : Server
  pub runner : Runner E W

-- What the threads meet: the clients of the two servers, and SHA-1 and base64.
pub record Outside : Type 0 where
  pub web_peer : Peer
  pub basic_peer : Peer
  pub sha1 : List ℕ → List ℕ
  pub base64 : List ℕ → List ℕ

module _ {E W : Type 0} (o : Outside) (es : Effects E W) where
  -- One thread does a round that ends well.
  pub data Step (s : State E W) : State E W → Type 0 where
    web_step :
        (cmd : ℤ) (after : Server)
        → server_round o.web_peer o.sha1 o.base64 s.shared_cmd s.web ≡ ok (cmd, after)
        → Step s (record { shared_cmd = cmd; web = after; basic = s.basic; runner = s.runner })
    basic_step :
        (cmd : ℤ) (after : Server)
        → basic_round o.basic_peer s.shared_cmd s.basic ≡ ok (cmd, after)
        → Step s (record { shared_cmd = cmd; web = s.web; basic = after; runner = s.runner })
    runner_step :
        (cmd : ℤ) (after : Runner E W)
        → runner_round es s.shared_cmd s.runner ≡ ok (cmd, after)
        → Step s (record { shared_cmd = cmd; web = s.web; basic = s.basic; runner = after })

  pub data Steps (s : State E W) : State E W → Type 0 where
    here : Steps s s
    then : {t u : State E W} → Steps s t → Step t u → Steps s u
