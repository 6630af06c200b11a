-- ===== src/Memory/Capacity.antt =====
-- The number of active memories of an owner.
use sql_rpa.Base.{
  ℕ, zero, suc, ◌+◌, ◌-◌, ◌<◌, ◌≡◌, refl, ap, ◌∙◌, String, true, false, List, [], ◌∷◌, leb, min,
  keep, keep-append, length, length-append, eq_iff, arith, Bool-cases, if_elim, inl, inr,
  if◌then◌else◌,
}
use sql_rpa.Text.{Text}
use sql_rpa.Memory.{
  Owner, UserMemory, Store, is_active, count_active, deprecate, deprecate_oldest, new_memory,
  add_row, add_memory,
}

-- Each memory that is deprecated was active.
deprecate-count :
    (o : Owner) (n : ℕ) (ms : List UserMemory)
    → count_active o (deprecate o n ms) ≡ count_active o ms - n
unfolding deprecate count_active
deprecate-count o zero ms = omega arith
deprecate-count o (suc n) [] = omega arith
deprecate-count o (suc n) (m ∷ ms) = elim (Bool-cases (is_active o m)) [
  | inl a ↦ rw a (omega (arith, deprecate-count o n ms))
  | inr a ↦ rw a (rw a (deprecate-count o (suc n) ms))
]

added-is_active :
    (o : Owner) (id : String) (content : Text) (kind : String)
    → is_active o (new_memory o id content kind) ≡ true
added-is_active o id content kind =
    rw ((eq_iff o.tenant_id o.tenant_id).1 refl) ((eq_iff o.owner_id o.owner_id).1 refl)

add_row-count :
    (o : Owner) (id : String) (content : Text) (kind : String) (s : Store)
    → count_active o (add_row o id content kind s).memories ≡ count_active o s.memories + 1
unfolding count_active
add_row-count o id content kind s =
    ap length (keep-append (is_active o) s.memories (new_memory o id content kind ∷ []))
    ∙ length-append (keep (is_active o) s.memories)
        (keep (is_active o) (new_memory o id content kind ∷ []))
    ∙ ap
        (λ b.
          length (keep (is_active o) s.memories)
          + length (if b then new_memory o id content kind ∷ [] else []))
        (added-is_active o id content kind)

-- With a positive limit, an owner has after `add_memory` one active memory more than before, but
-- the limit if that is less: as many of the oldest are deprecated as that takes, even if the limit
-- was passed before.
pub add_memory-count :
    (max_count : ℕ) (o : Owner) (id : String) (content : Text) (kind : String) (s : Store)
    → 0 < max_count
    → count_active o (add_memory max_count o id content kind s).memories
      ≡ min (count_active o s.memories + 1) max_count
unfolding add_memory deprecate_oldest
add_memory-count max_count o id content kind s h =
    if_elim
      (λ t.
        count_active o (add_row o id content kind t).memories
        ≡ min (count_active o s.memories + 1) max_count)
      (leb max_count (count_active o s.memories))
      (λ full.
        add_row-count o id content kind
          (deprecate_oldest o (count_active o s.memories - max_count + 1) s)
        ∙ made _ _ full (deprecate-count o (count_active o s.memories - max_count + 1) s.memories))
      (λ room. add_row-count o id content kind s ∙ free _ room)
  where
    free : (n : ℕ) → leb max_count n ≡ false → n + 1 ≡ min (n + 1) max_count
    free n e = ground (arith, e)

    made :
        (n k : ℕ)
        → leb max_count n ≡ true
        → k ≡ n - (n - max_count + 1)
        → k + 1 ≡ min (n + 1) max_count
    made n k e f = ground (arith, e, f, h)
