-- ===== src/Memory/Owners.antt =====
-- The memories of one owner under the operations of others.
use mathlib.Core.List.{append-nil}
use sql_rpa.Base.{
  ℕ, zero, suc, ◌+◌, ◌-◌, ◌≤◌, ◌≡◌, refl, sym, ap, ◌∙◌, String, Bool, true, false, ◌&&◌, not,
  Option, none, some, List, [], ◌∷◌, ◌++◌, map, keep, keep-append, keep-skip, keep-cons, leb, take,
  find, length, str_eq, eq_iff, arith, Bool-cases, if_elim, inl, inr, All, given, if◌then◌else◌,
}
use sql_rpa.Text.{Text, strip}
use sql_rpa.Memory.{
  Owner, UserMemory, Store, is_owned, is_active, is_own, count_active, deprecate, deprecate_oldest,
  new_memory, add_row, add_memory, update_memory, delete_memory, clear_all, joined, search_memories,
  build_fts_query, is_blank,
}

pub data Request : Type 0 where
  adds : String → Text → String → Request
  updates : String → Option Text → Option Bool → Request
  deletes : String → Request
  clears : Request

pub handle : ℕ → Owner → Request → Store → Store
handle max_count o (adds id content kind) s = add_memory max_count o id content kind s
handle max_count o (updates id content deprecated) s = (update_memory o id content deprecated s).0
handle max_count o (deletes id) s = (delete_memory o id s).0
handle max_count o clears s = (clear_all o s).0

pub handle_all : ℕ → List (Owner × Request) → Store → Store
handle_all max_count [] s = s
handle_all max_count ((o, r) ∷ rs) s = handle_all max_count rs (handle max_count o r s)

abbrev pub same_owner : Owner → Owner → Bool
same_owner a b = str_eq a.tenant_id b.tenant_id && str_eq a.owner_id b.owner_id

-- A row has one owner.
one_owner :
    (a b : Owner) (m : UserMemory)
    → same_owner a b ≡ false
    → is_owned a m ≡ true
    → is_owned b m ≡ false
one_owner a b m d h = elim (Bool-cases (is_owned b m)) [
  | inr e ↦ e
  | inl e ↦ absurd (clash (both _ _ h) (both _ _ e))
]
  where
    both : (x y : Bool) → (x && y) ≡ true → (x ≡ true) × (y ≡ true)
    both x y e = ground (arith, e)

    mixed : (x y : Bool) → x ≡ true → y ≡ true → (x && y) ≡ false → ⊥
    mixed x y t u d = ground (arith, t, u, d)

    clash :
        (str_eq m.tenant_id a.tenant_id ≡ true) × (str_eq m.owner_id a.owner_id ≡ true)
        → (str_eq m.tenant_id b.tenant_id ≡ true) × (str_eq m.owner_id b.owner_id ≡ true)
        → ⊥
    clash (p, q) (r, s) =
        let t =
          (eq_iff a.tenant_id b.tenant_id).1
            (sym ((eq_iff m.tenant_id a.tenant_id).0 p) ∙ (eq_iff m.tenant_id b.tenant_id).0 r) in
        let u =
          (eq_iff a.owner_id b.owner_id).1
            (sym ((eq_iff m.owner_id a.owner_id).0 q) ∙ (eq_iff m.owner_id b.owner_id).0 s) in
        mixed _ _ t u d

module _ (a b : Owner) (other : same_owner a b ≡ false) where
  -- A row of the other owner stays if what is dropped is a's, and its own if what is written is.
  deprecate-others :
      (n : ℕ) (ms : List UserMemory) → keep (is_owned b) (deprecate a n ms) ≡ keep (is_owned b) ms
  unfolding deprecate
  deprecate-others zero ms = refl
  deprecate-others (suc n) [] = refl
  deprecate-others (suc n) (m ∷ ms) = elim (Bool-cases (is_active a m)) [
    | inl h ↦
        let theirs = one_owner a b m other (second _ _ h) in
        rw h (
          keep-skip (is_owned b) (record m { deprecated = true }) (deprecate a n ms) theirs
          ∙ deprecate-others n ms
          ∙ sym (keep-skip (is_owned b) m ms theirs))
    | inr h ↦
        rw h (keep-cons (is_owned b) m (deprecate a (suc n) ms) ms (deprecate-others (suc n) ms))
  ]
    where
      second : (x y : Bool) → (x && y) ≡ true → y ≡ true
      second x y e = ground (arith, e)

  drop-others :
      (p : UserMemory → Bool) (ms : List UserMemory)
      → ((m : UserMemory) → is_owned b m ≡ true → p m ≡ true)
      → keep (is_owned b) (keep p ms) ≡ keep (is_owned b) ms
  drop-others p [] h = refl
  drop-others p (m ∷ ms) h = elim (Bool-cases (p m)) [
    | inl e ↦ rw e (keep-cons (is_owned b) m (keep p ms) ms (drop-others p ms h))
    | inr e ↦ rw e (drop-others p ms h ∙ sym (keep-skip (is_owned b) m ms (theirs e (h m))))
  ]
    where
      theirs : {x y : Bool} → x ≡ false → (y ≡ true → x ≡ true) → y ≡ false
      theirs {x = x} {y = true} e k = absurd (ground (arith, e, k refl))
      theirs {x = x} {y = false} e k = refl

  write-others :
      (p : UserMemory → Bool) (f : UserMemory → UserMemory) (ms : List UserMemory)
      → ((m : UserMemory) → p m ≡ true → (is_owned b m ≡ false) × (is_owned b (f m) ≡ false))
      → keep (is_owned b) (map (λ m. if p m then f m else m) ms) ≡ keep (is_owned b) ms
  write-others p f [] h = refl
  write-others p f (m ∷ ms) h = elim (Bool-cases (p m)) [
    | inl e ↦
        let (before, behind) = h m e in
        rw e (
          keep-skip (is_owned b) (f m) (map (λ m. if p m then f m else m) ms) behind
          ∙ write-others p f ms h
          ∙ sym (keep-skip (is_owned b) m ms before))
    | inr e ↦
        rw e (
          keep-cons (is_owned b) m (map (λ m. if p m then f m else m) ms) ms
            (write-others p f ms h))
  ]

  add-others :
      (max_count : ℕ) (id : String) (content : Text) (kind : String) (s : Store)
      → keep (is_owned b) (add_memory max_count a id content kind s).memories
        ≡ keep (is_owned b) s.memories
  unfolding add_memory deprecate_oldest
  add-others max_count id content kind s =
      if_elim
        (λ t.
          keep (is_owned b) (add_row a id content kind t).memories ≡ keep (is_owned b) s.memories)
        (leb max_count (count_active a s.memories))
        (λ _.
          added (deprecate a (count_active a s.memories - max_count + 1) s.memories)
          ∙ deprecate-others (count_active a s.memories - max_count + 1) s.memories)
        (λ _. added s.memories)
    where
      added :
          (ms : List UserMemory)
          → keep (is_owned b) (ms ++ new_memory a id content kind ∷ []) ≡ keep (is_owned b) ms
      added ms =
          keep-append (is_owned b) ms (new_memory a id content kind ∷ [])
          ∙ ap (λ xs. keep (is_owned b) ms ++ xs)
              (keep-skip (is_owned b) (new_memory a id content kind) [] other)
          ∙ append-nil (keep (is_owned b) ms)

  not_own : (m : UserMemory) → is_owned b m ≡ true → is_owned a m ≡ false
  not_own m e = elim (Bool-cases (is_owned a m)) [
    | inr f ↦ f
    | inl f ↦ absurd (ground (arith, e, one_owner a b m other f))
  ]

  update-others :
      (id : String) (content : Option Text) (deprecated : Option Bool) (ms : List UserMemory)
      → keep (is_owned b) (
          map
            (λ m.
              if is_own a id m
              then record m {
                content = given content m.content;
                deprecated = given deprecated m.deprecated;
              }
              else m)
            ms)
        ≡ keep (is_owned b) ms
  update-others id content deprecated ms =
      write-others (is_own a id)
        (λ m. record m {
          content = given content m.content;
          deprecated = given deprecated m.deprecated;
        })
        ms (λ m e. let t = one_owner a b m other (second _ _ e) in (t, t))
    where
      second : (x y : Bool) → (x && y) ≡ true → y ≡ true
      second x y e = ground (arith, e)

  handle-others :
      (max_count : ℕ) (r : Request) (s : Store)
      → keep (is_owned b) (handle max_count a r s).memories ≡ keep (is_owned b) s.memories
  unfolding handle update_memory delete_memory clear_all
  handle-others max_count (adds id content kind) s = add-others max_count id content kind s
  handle-others max_count (updates id none none) s = refl
  handle-others max_count (updates id (some c) d) s = update-others id (some c) d s.memories
  handle-others max_count (updates id none (some d)) s = update-others id none (some d) s.memories
  handle-others max_count (deletes id) s =
      drop-others (λ m. not (is_own a id m)) s.memories (λ m e. spared _ _ (not_own m e))
    where
      spared : (x y : Bool) → y ≡ false → not (x && y) ≡ true
      spared x y e = ground (arith, e)
  handle-others max_count clears s =
      drop-others (λ m. not (is_owned a m)) s.memories (λ m e. spared _ (not_own m e))
    where
      spared : (y : Bool) → y ≡ false → not y ≡ true
      spared y e = ground (arith, e)

-- Whatever other owners add, update, delete or clear, and whatever memories of theirs that makes the
-- store deprecate, the memories of an owner stay as they are.
pub handle_all-others :
    (max_count : ℕ) (b : Owner) (rs : List (Owner × Request)) (s : Store)
    → All (λ (o, r). same_owner o b ≡ false) rs
    → keep (is_owned b) (handle_all max_count rs s).memories ≡ keep (is_owned b) s.memories
unfolding handle_all
handle_all-others max_count b [] s h = refl
handle_all-others max_count b ((a, r) ∷ rs) s (other, h) =
    handle_all-others max_count b rs (handle max_count a r s) h
    ∙ handle-others a b other max_count r s

joined-IsOwn :
    (o : Owner) (ms : List UserMemory) (ids : List String)
    → All (λ m. is_active o m ≡ true) (joined o ms ids)
joined-IsOwn o ms [] = tt
joined-IsOwn o ms (id ∷ ids) = go (find (λ m. str_eq m.id id) ms) (joined-IsOwn o ms ids)
  where
    go :
        (found : Option UserMemory)
        → All (λ m. is_active o m ≡ true) (joined o ms ids)
        → All
            (λ m. is_active o m ≡ true)
            (elim found as (λ _. List UserMemory) [
              | none ↦ joined o ms ids
              | some m ↦ if is_active o m then m ∷ joined o ms ids else joined o ms ids
            ])
    go none again = again
    go (some m) again =
        if_elim (All (λ m. is_active o m ≡ true)) (is_active o m) (λ e. (e, again)) (λ _. again)

All-take :
    (o : Owner) (n : ℕ) (ms : List UserMemory)
    → All (λ m. is_active o m ≡ true) ms
    → All (λ m. is_active o m ≡ true) (take n ms)
All-take o zero ms h = tt
All-take o (suc n) [] h = tt
All-take o (suc n) (m ∷ ms) (h, hs) = (h, All-take o n ms hs)

length-take : (n : ℕ) (ms : List UserMemory) → length (take n ms) ≤ n
length-take zero ms = omega arith
length-take (suc n) [] = omega arith
length-take (suc n) (m ∷ ms) = omega (arith, length-take n ms)

-- A search finds at most as many memories as it may, each of them active and of the owner, whatever
-- the index finds.
pub search_memories-IsOwn :
    (rank : Text → List (String × Text) → List String) (o : Owner) (query : Text) (top_k : ℕ)
    (s : Store)
    → All (λ m. is_active o m ≡ true) (search_memories rank o query top_k s)
      × (length (search_memories rank o query top_k s) ≤ top_k)
unfolding search_memories
search_memories-IsOwn rank o query top_k s =
    let found = joined o s.memories (rank (build_fts_query query) s.index) in
    if_elim (λ ms. All (λ m. is_active o m ≡ true) ms × (length ms ≤ top_k))
      (is_blank (strip query)) (λ _. (tt, omega arith))
      (λ _. (
        All-take o top_k found (joined-IsOwn o s.memories (rank (build_fts_query query) s.index)),
        length-take top_k found,
      ))
