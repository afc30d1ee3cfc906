-- ===== src/Tests/Values.antt =====
-- The theorems on messages of several values, at a string and four bytes.
use nanomsgpp.Prelude.{ℕ, ◌≡◌, refl, true, List, [], ◌∷◌, length, map, get_elem?}
use nanomsgpp.Prelude.Bytes.{Bytes, codes}
use nanomsgpp.Memory.{Ptr}
use nanomsgpp.World.{World, ok}
use nanomsgpp.World.Ends.{Ends}
use nanomsgpp.Message.{Message, size, empty_message, message_destroy, at}
use nanomsgpp.Message.Lifetime.{
  Value, text, raw, bytes, write_all, Found, write_all-message_destroy,
}
use nanomsgpp.Socket.Transfer.{sendmsg}
use nanomsgpp.Socket.Transfer.Values.{HandsValues, write_all-sendmsg}
use nanomsgpp.Tests.Toy.{toy, toy_frees, toy_malloc, used, used-IsHeap}

abbrev values : List Value
values = text 9 (codes "hi") ∷ raw 30 (1 ∷ 0 ∷ 0 ∷ 0 ∷ []) ∷ text 9 [] ∷ []

write_all-message_destroy_example :
    (m : Message) × (u : World (List Bytes)) × (v : World (List Bytes)) × (write_all toy
        empty_message values used
      ≡ ok m u)
    × (size m ≡ length values)
    × ((i : ℕ) → Found u (get_elem? (map bytes values) i) (at m i u))
    × (message_destroy toy m u ≡ ok tt v)
    × ((a : Ptr) → v.heap.block a ≡ used.heap.block a)
    × (v.calls ≡ used.calls)
write_all-message_destroy_example =
    write_all-message_destroy toy toy_malloc values used toy_frees used-IsHeap

write_all-sendmsg_example :
    (m : Message) × (u : World (List Bytes)) × (write_all toy empty_message values used ≡ ok m u)
    × Ends (HandsValues toy 0 true values used u) (sendmsg toy 0 m true u)
write_all-sendmsg_example =
    write_all-sendmsg toy 0 true values used toy_malloc used-IsHeap λ iov h l. refl
