-- ===== src/Message/Traced.antt =====
-- No operation on a message makes a call that is recorded.
use nanomsgpp.Prelude.{ℕ, Bool, List, [], ◌∷◌}
use nanomsgpp.Prelude.Int.{ℤ}
use nanomsgpp.Prelude.Bytes.{Bytes}
use nanomsgpp.Memory.{Ptr, Source}
use nanomsgpp.Platform.{Platform}
use nanomsgpp.World.{Ref}
use nanomsgpp.World.Policy.{Policy}
use nanomsgpp.World.Traces.{IsTraced, bind-IsTraced, pure-IsTraced}
use nanomsgpp.World.Traces.Calls.{traced}
use nanomsgpp.Message.{
  Part, Message, MsgHdr, part_copy, part_destroy, parts_destroy, message_destroy, use_msghdr,
  gen_nn_msghdr, msghdr_free, write_string,
}

module _ {S : Type 0} (nn : Platform S) (s : Ref) (fd : ℤ) (P : Policy nn) where
  pub part_copy-IsTraced :
      (src : Source) (n : ℕ) (deep : Bool) → IsTraced nn s fd P (part_copy nn src n deep)
  unfolding part_copy
  part_copy-IsTraced src n deep = search traced depth 8

  pub part_destroy-IsTraced : (p : Part) → IsTraced nn s fd P (part_destroy nn p)
  unfolding part_destroy
  part_destroy-IsTraced p = search traced depth 8

  pub parts_destroy-IsTraced : (ps : List Part) → IsTraced nn s fd P (parts_destroy nn ps)
  unfolding parts_destroy
  parts_destroy-IsTraced [] = pure-IsTraced nn s fd P tt
  parts_destroy-IsTraced (p ∷ ps) =
      bind-IsTraced nn s fd P (part_destroy nn p) (λ _. parts_destroy nn ps)
        (part_destroy-IsTraced p) λ _. parts_destroy-IsTraced ps

  pub message_destroy-IsTraced : (m : Message) → IsTraced nn s fd P (message_destroy nn m)
  unfolding message_destroy
  message_destroy-IsTraced m = parts_destroy-IsTraced m.d_parts

  use_msghdr-IsTraced :
      (h i : Ptr) (ps : List Part) → IsTraced nn s fd P (use_msghdr {S = S} h i ps)
  unfolding use_msghdr
  use_msghdr-IsTraced h i [] = search traced depth 8
  use_msghdr-IsTraced h i (p ∷ ps) = search traced depth 8

  pub gen_nn_msghdr-IsTraced : (m : Message) → IsTraced nn s fd P (gen_nn_msghdr nn m)
  unfolding gen_nn_msghdr
  gen_nn_msghdr-IsTraced m = search (traced, use_msghdr-IsTraced) depth 8

  pub msghdr_free-IsTraced : (h : MsgHdr) → IsTraced nn s fd P (msghdr_free {S = S} h)
  unfolding msghdr_free
  msghdr_free-IsTraced h = search traced depth 8

  pub write_string-IsTraced :
      (m : Message) (p : Ptr) (bs : Bytes) → IsTraced nn s fd P (write_string nn m p bs)
  unfolding write_string
  write_string-IsTraced m p bs = search (traced, part_copy-IsTraced, part_destroy-IsTraced) depth 8
