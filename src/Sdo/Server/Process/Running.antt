-- ===== src/Sdo/Server/Process/Running.antt =====
-- pkg/sdo/server.go: a server in the life of its node. The bus calls `Handle`, the node calls
-- `SetNMTState` and the loop of `Process` takes its turns, in any order.
use gocanopen.Base.{ℕ, List, [], ◌∷◌, arith}
use gocanopen.Can.{Frame}
use gocanopen.Sdo.Message.{Message}
use gocanopen.Sdo.Server.{Server, Run, ok, ◌>>=◌}
use gocanopen.Sdo.Server.After.{After, bind-After}
use gocanopen.Sdo.Server.Process.{handle, set_nmt_state, wake, time_out, turn, tx_abort}
use gocanopen.Sdo.Server.Process.Incoming.{is_waiting, sends_blocks, IsWaiting}
use gocanopen.Sdo.Server.Process.Waiting.{serve-IsWaiting}

-- What happens to a server. A turn with an empty channel is one in which the timeout passes.
pub data Event : Type 0 where
  arrives : Frame → Event
  turns : Event
  commanded : ℕ → Event

unfoldable pub react : Server → Event → Run
react s (arrives frame) = ok (handle s frame)
react s turns = turn s
react s (commanded state) = ok (set_nmt_state s state)

unfoldable pub lives : Server → List Event → Run
lives s [] = ok s
lives s (e ∷ es) = react s e >>= λ s'. lives s' es

abbrev pub Never : Server → Type 0
Never s = ⊥

wake-IsWaiting : (s : Server) (rx : List Message) → IsWaiting s → After IsWaiting Never (wake s rx)
unfolding time_out tx_abort is_waiting sends_blocks
wake-IsWaiting s [] w = ground (arith, w)
wake-IsWaiting s (m ∷ ms) w = serve-IsWaiting (record s { rx = ms }) m w

turn-IsWaiting : (s : Server) → IsWaiting s → After IsWaiting Never (turn s)
unfolding turn is_waiting sends_blocks
turn-IsWaiting s w = ground (arith, wake-IsWaiting s s.rx w)

react-IsWaiting : (s : Server) (e : Event) → IsWaiting s → After IsWaiting Never (react s e)
unfolding react handle set_nmt_state
react-IsWaiting s (arrives frame) w = ground (arith, w)
react-IsWaiting s turns w = turn-IsWaiting s w
react-IsWaiting s (commanded state) w = w

-- A server that waits for the client, with a block size of 1 to 127 if it is in an upload in blocks,
-- does so again after any sequence of frames, commands of the network management and turns of Process:
-- every turn ends, by a run-time panic at worst, and none leaves an error unanswered.
lives-IsWaiting : (s : Server) (es : List Event) → IsWaiting s → After IsWaiting Never (lives s es)
unfolding lives
lives-IsWaiting s [] w = w
lives-IsWaiting s (e ∷ es) w =
    bind-After IsWaiting IsWaiting Never (react s e) (λ s'. lives s' es) (react-IsWaiting s e w)
      (λ s' w'. lives-IsWaiting s' es w')
