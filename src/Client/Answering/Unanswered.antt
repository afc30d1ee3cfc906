-- ===== src/Client/Answering/Unanswered.antt =====
-- `resp_loop` of client/nanomsgpp.cpp while no message can be received.
use nanomsgpp.Prelude.{ℕ, true, ◌≡◌, [], ◌∷◌}
use nanomsgpp.Prelude.Int.{ℤ, minus_one}
use nanomsgpp.Prelude.Bytes.{Bytes}
use nanomsgpp.Memory.{Heap}
use nanomsgpp.Platform.{Platform}
use nanomsgpp.World.{World, Socket}
use nanomsgpp.Message.Ownership.{FreesChunks}
use nanomsgpp.Message.Header.{MallocWorks}
use nanomsgpp.Socket.Transfer.{flags_of}
use nanomsgpp.Client.Options.{Options}
use nanomsgpp.Client.Accepted.Inbox.{receives}

-- `nn_recvmsg(3)` with NN_MSG on a descriptor where nothing comes, for whatever reason.
abbrev pub NothingComes : {S : Type 0} → Platform S → ℤ → Type 0
NothingComes {S} nn fd =
    (h : Heap) (l : S)
    → (l' : S) × (nn.nn_recvmsg fd (nn.nn_msg ∷ []) (flags_of nn true) h l
        ≡ ((minus_one, []), h, l'))

module _ {S : Type 0} (nn : Platform S) (works : MallocWorks nn) (frees : FreesChunks nn) where
  -- Only receives are called, any number of them.
  abbrev pub OnlyWaits : ℤ → World S → World S → Type 0
  OnlyWaits fd w u = (n : ℕ) × (u.calls ≡ receives nn fd n w.calls)
