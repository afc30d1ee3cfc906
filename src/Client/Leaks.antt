-- ===== src/Client/Leaks.antt =====
-- What a run of the client leaks, against the number of its sends.
use nanomsgpp.Prelude.{
  suc, ◌+◌, ◌≡◌, ◌≢◌, ◌∙◌, refl, sym, none, some, Option, List, [], ◌∷◌, length, All, All-mono,
  arith,
}
use nanomsgpp.Memory.{Ptr, Block}
use nanomsgpp.World.Sends.{sends}
use nanomsgpp.Client.Growth.{IsDistinct}
use nanomsgpp.World.{World}

-- There is a block, of a kind.
abbrev pub IsSome : (Block → Type 0) → Option Block → Type 0
IsSome Kind o = (b : Block) × (o ≡ some b) × Kind b

-- Between two worlds `nn_sendmsg` was called as often as there are leaked blocks: each is new, at an
-- address of its own, and of a kind, and every other block is as it was.
pub record Leaks {S : Type 0} (Kind : Block → Type 0) (w u : World S) : Type 0 where
  pub leaked : List Ptr
  pub distinct : IsDistinct leaked
  pub counted : sends u.calls ≡ length leaked + sends w.calls
  pub fresh : All (λ p. (w.heap.block p ≡ none) × IsSome Kind (u.heap.block p)) leaked
  pub others : (a : Ptr) → All (λ p. p ≢ a) leaked → u.heap.block a ≡ w.heap.block a

module _ {S : Type 0} (Kind : Block → Type 0) where
  pub Leaks-refl : (w : World S) → Leaks Kind w w
  Leaks-refl w = record {
    leaked = [];
    distinct = tt;
    counted = omega arith;
    fresh = tt;
    others = λ a apart. refl;
  }

  pub Leaks-same :
      (w u v : World S)
      → Leaks Kind w u
      → ((a : Ptr) → v.heap.block a ≡ u.heap.block a)
      → sends v.calls ≡ sends u.calls
      → Leaks Kind w v
  Leaks-same w u v l blocks calls = record {
    leaked = l.leaked;
    distinct = l.distinct;
    counted = calls ∙ l.counted;
    fresh =
        All-mono _ (λ p. (w.heap.block p ≡ none) × IsSome Kind (v.heap.block p)) l.leaked
          (λ p (free, (b, there, kind)). (free, (b, blocks p ∙ there, kind))) l.fresh;
    others = λ a apart. blocks a ∙ l.others a apart;
  }

  -- One more call and one more block.
  pub Leaks-suc :
      (w u v : World S) (n : Ptr) (b : Block)
      → Leaks Kind w u
      → u.heap.block n ≡ none
      → v.heap.block n ≡ some b
      → Kind b
      → ((a : Ptr) → a ≢ n → v.heap.block a ≡ u.heap.block a)
      → sends v.calls ≡ suc (sends u.calls)
      → Leaks Kind w v
  Leaks-suc w u v n b l free there kind blocks calls =
      let apart : All (λ p. p ≢ n) l.leaked =
        All-mono _ (λ p. p ≢ n) l.leaked
          (λ p (unused, (c, used, k)) e. ground (arith, free, used, e)) l.fresh in
      record {
        leaked = n ∷ l.leaked;
        distinct = (apart, l.distinct);
        counted = omega (arith, calls, l.counted);
        fresh = (
          (sym (l.others n apart) ∙ free, (b, there, kind)),
          All-mono _ (λ p. (w.heap.block p ≡ none) × IsSome Kind (v.heap.block p)) l.leaked
              (λ p (unused, (c, used, k)).
                (unused, (c, blocks p (λ e. ground (arith, free, used, e)) ∙ used, k)))
              l.fresh,
        );
        others = λ a (away, rest). blocks a (λ e. away (sym e)) ∙ l.others a rest;
      }

  pub Leaks-mono :
      (Kind' : Block → Type 0) (w u : World S)
      → Leaks Kind w u
      → ((b : Block) → Kind b → Kind' b)
      → Leaks Kind' w u
  Leaks-mono Kind' w u l weaken = record {
    leaked = l.leaked;
    distinct = l.distinct;
    counted = l.counted;
    fresh =
        All-mono _ (λ p. (w.heap.block p ≡ none) × IsSome Kind' (u.heap.block p)) l.leaked
          (λ p (free, (b, there, kind)). (free, (b, there, weaken b kind))) l.fresh;
    others = l.others;
  }
