-- ===== src/Tags/Runs.antt =====
-- src/common/tagmalloc.c: the theorems at concrete inputs.
use csapp_stay.Prelude.{
  ℕ, zero, suc, ◌+◌, ◌*◌, ◌<◌, ◌≡◌, refl, inl, arith, none, some, [], ◌∷◌, update,
}
use csapp_stay.Array.{Array}
use csapp_stay.Cleanup.{add_cleanup_event}
use csapp_stay.Cleanup.Orders.{InOrder, Lists, add_cleanup_event-Lists}
use csapp_stay.LinkedList.{LinkedList}
use csapp_stay.LinkedList.Rings.{link}
use csapp_stay.Tags.{TagBlock, Tags, Fresh, compute_tag, tag_malloc, tag_free, tag_destroy}
use csapp_stay.Tags.Registers.{IsTags, IsFresh, new_block_of, tag_malloc-IsTags}
use csapp_stay.Tags.Searches.{turn}
use csapp_stay.Tags.Releases.{tag_free-early, tag_free-last}
use csapp_stay.Tags.Destroys.{ReadFreed, tag_destroy-twice}

-- Nodes at 8 and 16, blocks at 100 and 200, data at 1000 and 2000.
abbrev node_of : ℕ → ℕ
node_of i = 8 + i * 8

abbrev block_of : ℕ → ℕ
block_of i = 100 + i * 100

abbrev tagged : ℕ → TagBlock
tagged i = record { tag = compute_tag (b'a' ∷ []); size = 4; ptr = 1000 + i * 1000 }

-- The event of tag_destroy, at 77.
destroy_event :
    (arr : Array) × (add_cleanup_event (λ _. 0) (λ _. 0) none 77 ≡ some (some arr))
    × Lists arr (77 ∷ [])
destroy_event =
    add_cleanup_event-Lists (λ _. 0) (λ _. 0) none [] 77 refl (omega arith)
      (λ e. absurd (omega arith))

abbrev two : Tags
two = record {
  tag_list = some (record {
    nodes =
        update (update (λ _. none) 8 (some (record { value = 100; next = 16; prev = 16 }))) 16
          (some (record { value = 200; next = 8; prev = 8 }));
    head = 8;
    count = 2;
  });
  blocks = update (update (λ _. none) 100 (some (tagged 0))) 200 (some (tagged 1));
  sizes = update (update (λ _. none) 1000 (some 4)) 2000 (some 4);
  events = some destroy_event.0;
}

two-IsTags : IsTags two 2 node_of block_of tagged
two-IsTags = record {
  tracked = record {
    size = refl;
    start = refl;
    present = λ i h e. absurd (omega arith);
    holds = record { node = λ i h. node i h; apart = λ i j hi hj e. omega arith };
  };
  allocated = record { node = λ i h. block i h; apart = λ i j hi hj e. omega arith };
  owned = record { node = λ i h. size i h; apart = λ i j hi hj e. omega arith };
}
  where
    node :
        (i : ℕ)
        → i < 2
        → update
            (update (λ _. none) 8 (some (record { value = 100; next = 16; prev = 16 })))
            16
            (some (record { value = 200; next = 8; prev = 8 }))
            (node_of i)
          ≡ some (link 2 node_of block_of i)
    node zero h = refl
    node (suc zero) h = refl
    node (suc (suc i)) h = absurd (omega arith)

    block : (i : ℕ) → i < 2 → two.blocks (block_of i) ≡ some (tagged i)
    block zero h = refl
    block (suc zero) h = refl
    block (suc (suc i)) h = absurd (omega arith)

    size : (i : ℕ) → i < 2 → two.sizes (tagged i).ptr ≡ some 4
    size zero h = refl
    size (suc zero) h = refl
    size (suc (suc i)) h = absurd (omega arith)

abbrev third : Fresh
third = record { block = 300; ptr = 3000; node = 24; table = λ _. 0; grown = λ _. 0; destroy = 77 }

third-IsFresh : IsFresh third two 2 node_of block_of tagged (77 ∷ [])
third-IsFresh = record {
  some_block = λ e. absurd (omega arith);
  some_ptr = λ e. absurd (omega arith);
  some_node = λ e. absurd (omega arith);
  some_destroy = λ e. absurd (omega arith);
  new_node = λ i h e. absurd (omega arith);
  new_block = λ i h e. absurd (omega arith);
  new_ptr = λ i h e. absurd (omega arith);
  small = omega arith;
  events = destroy_event.2;
  few = omega arith;
}

tag_malloc-IsTags_example :
    (t : Tags) × (tag_malloc third 8 (b'b' ∷ []) two ≡ some (3000, t))
    × IsTags t 3
        (update node_of 2 24)
        (update block_of 2 300)
        (update tagged 2 (new_block_of third 8 (b'b' ∷ [])))
    × InOrder t.events (77 ∷ [])
tag_malloc-IsTags_example =
    tag_malloc-IsTags third 8 (b'b' ∷ []) two 2 node_of block_of tagged (77 ∷ []) two-IsTags
      third-IsFresh

tag_free-early_example :
    (t : Tags) × (tag_free 1000 two ≡ some (1, t))
    × IsTags t 1 (λ j. node_of (turn 2 1 j)) (λ j. block_of (turn 2 1 j)) (λ j. tagged (turn 2 1 j))
    × (t.blocks 100 ≡ none)
    × (t.sizes 1000 ≡ none)
tag_free-early_example =
    tag_free-early two 1 0 node_of block_of tagged two-IsTags (omega arith) (inl (omega arith))
      (omega arith)

tag_free-last_example :
    (l : LinkedList) × (tag_free 2000 two ≡ some (0, record two { tag_list = some l }))
    × IsTags (record two { tag_list = some l }) 2 node_of block_of tagged
tag_free-last_example = tag_free-last two 0 node_of block_of tagged two-IsTags

tag_destroy-twice_example : ReadFreed two 0 100 × (tag_destroy two ≡ none)
tag_destroy-twice_example = tag_destroy-twice two 0 node_of block_of tagged two-IsTags

-- The block at 200 alone.
one :
    (t : Tags) × (tag_free 1000 two ≡ some (1, t))
    × IsTags t 1 (λ j. node_of (turn 2 1 j)) (λ j. block_of (turn 2 1 j)) (λ j. tagged (turn 2 1 j))
    × (t.blocks 100 ≡ none)
    × (t.sizes 1000 ≡ none)
one =
    tag_free-early two 1 0 node_of block_of tagged two-IsTags (omega arith) (inl (omega arith))
      (omega arith)
