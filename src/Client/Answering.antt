-- ===== src/Client/Answering.antt =====
-- What `resp_loop` of client/nanomsgpp.cpp answers.
pub mod Posts
pub mod Attempts
pub mod Rounds
pub mod Unanswered
use nanomsgpp.Prelude.{List, ◌∷◌}
use nanomsgpp.World.{Call, sendmsg_call, recvmsg_call}

abbrev pub IsRecv : Call → Type 0
IsRecv (recvmsg_call fd lens flags) = Unit
IsRecv _ = ⊥

abbrev pub IsSend : Call → Type 0
IsSend (sendmsg_call fd iov flags) = Unit
IsSend _ = ⊥

-- Calls, newest first, after those before: receives, and right after some of them one send.
pub data Answering (before : List Call) : List Call → Type 0 where
  nothing : Answering before before
  received :
      {cs : List Call} (c : Call) → IsRecv c → Answering before cs → Answering before (c ∷ cs)
  answered :
      {cs : List Call} (r c : Call)
      → IsRecv r
      → IsSend c
      → Answering before cs
      → Answering before (c ∷ r ∷ cs)
