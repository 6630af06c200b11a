-- ===== src/Notifications/Settles.antt =====
-- Five rounds settle a delivery that is due.
use sql_rpa.Base.{
  ℕ, suc, ◌+◌, ◌-◌, ◌*◌, ◌^◌, ◌≤◌, ◌<◌, ◌≡◌, refl, sym, ap, subst, ◌∙◌, String, Bool, true, false,
  ◌&&◌, Option, none, some, List, [], ◌∷◌, ◌++◌, leb, ltb, min, map, length, length-map, arith,
  Bool-cases, if_elim, inl, inr,
}
use sql_rpa.Notifications.{
  Status, pending, retry, sending, sent, failed, Delivery, is_waiting, is_sending, recover, is_due,
  mark, claim, fail, Round, is_joined, settle, deliver_pending,
}

abbrev pub is_settled : Status → Bool
is_settled sent = true
is_settled failed = true
is_settled _ = false

-- Where a delivery is after some rounds: it is settled, or it waits for the next and has failed as
-- often as there were rounds, but not five times.
pub data Progress (n t : ℕ) (joined : Delivery → Bool) (d : Delivery) : Type 0 where
  settled : is_settled d.status ≡ true → Progress n t joined d
  waits :
      is_due t d ≡ true → n ≤ d.attempts → d.attempts < 5 → joined d ≡ true → Progress n t joined d

-- Rounds that are an hour apart.
abbrev pub Spaced : ℕ → List Round → Type 0
Spaced t [] = Unit
Spaced t (r ∷ rs) = (t ≤ r.now) × Spaced (r.now + 3600) rs

-- With room for all, each row is claimed by itself.
claim-map :
    (now limit : ℕ) (ds : List Delivery)
    → length ds ≤ limit
    → claim now limit ds ≡ map (λ d. mark now (is_due now d) d) ds
unfolding claim
claim-map now limit [] h = refl
claim-map now limit (d ∷ ds) h = elim (Bool-cases (is_due now d)) [
  | inl due ↦
      rw (due, room h)
        (ap (λ xs. mark now true d ∷ xs) (claim-map now (limit - 1) ds (omega (arith, h))))
  | inr later ↦
      rw later (ap (λ xs. mark now false d ∷ xs) (claim-map now limit ds (omega (arith, h))))
]
  where
    room : {n m : ℕ} → suc n ≤ m → ltb 0 m ≡ true
    room h = ground (arith, h)

module _ (notifications endpoints : List String) where
  -- A round as one row sees it.
  abbrev row : Round → Delivery → Delivery
  row r d = settle notifications endpoints r (mark r.now (is_due r.now d) d)

  late : (t u : ℕ) (d : Delivery) → t ≤ u → is_due t d ≡ true → is_due u d ≡ true
  late t u d h e = go d.status d.next_retry_at e
    where
      go :
          (s : Status) (next : Option ℕ)
          → (is_waiting s && (elim next as (λ _. Bool) [ none ↦ true | some x ↦ leb x t ])) ≡ true
          → (is_waiting s && (elim next as (λ _. Bool) [ none ↦ true | some x ↦ leb x u ])) ≡ true
      go s none e = e
      go s (some x) e = ground (arith, h, e)

  fail-Progress :
      (n now : ℕ) (d : Delivery)
      → n ≤ d.attempts
      → is_joined notifications endpoints d ≡ true
      → Progress (suc n) (now + 3600) (is_joined notifications endpoints) (fail now d)
  fail-Progress n now d h j = elim (Bool-cases (leb 5 (d.attempts + 1))) [
    | inl last ↦ settled (rw last refl)
    | inr more ↦
        waits (rw more (soon now (2 ^ (d.attempts + 1) * 30))) (omega (arith, h))
          (few d.attempts more) j
  ]
    where
      soon : (a b : ℕ) → leb (a + min 3600 b) (a + 3600) ≡ true
      soon a b = ground arith

      few : (k : ℕ) → leb 5 (k + 1) ≡ false → k + 1 < 5
      few k h = ground (arith, h)

  idle : (s : Status) → is_settled s ≡ true → (is_waiting s ≡ false) × (is_sending s ≡ false)
  idle sent e = (refl, refl)
  idle failed e = (refl, refl)
  idle pending e = absurd (ground (arith, e))
  idle retry e = absurd (ground (arith, e))
  idle sending e = absurd (ground (arith, e))

  row-Progress :
      (n t : ℕ) (r : Round) (d : Delivery)
      → t ≤ r.now
      → Progress n t (is_joined notifications endpoints) d
      → Progress (suc n) (r.now + 3600) (is_joined notifications endpoints) (row r d)
  unfolding settle
  row-Progress n t r d h (settled s) =
      subst
        (λ b.
          Progress (suc n) (r.now + 3600) (is_joined notifications endpoints)
            (settle notifications endpoints r (mark r.now b d)))
        (sym (undue _ _ (idle d.status s).0)) (settled s)
    where
      undue : (a b : Bool) → a ≡ false → (a && b) ≡ false
      undue a b e = ground (arith, e)
  row-Progress n t r d h (waits due a f j) = rw (late t r.now d h due) (
      rw j (
        if_elim (Progress (suc n) (r.now + 3600) (is_joined notifications endpoints))
          (r.post (record d { status = sending; claimed_at = some r.now })) (λ _. settled refl)
          (λ _.
            fail-Progress n r.now (record d { status = sending; claimed_at = some r.now }) a j)))

  -- A delivery that is settled or waits is not given up.
  recover-Progress :
      (n t now : ℕ) (d : Delivery)
      → Progress n t (is_joined notifications endpoints) d
      → Progress n t (is_joined notifications endpoints) (recover now d)
  unfolding recover
  recover-Progress n t now d p =
      if_elim (Progress n t (is_joined notifications endpoints))
        (is_sending d.status && elim d.claimed_at [ none ↦ false | some t ↦ ltb (t + 300) now ])
        (λ e. absurd (stays p (first _ _ e))) (λ _. p)
    where
      first : (a b : Bool) → (a && b) ≡ true → a ≡ true
      first a b e = ground (arith, e)

      waiting : (s : Status) → is_waiting s ≡ true → is_sending s ≡ true → ⊥
      waiting sending e f = ground (arith, e)
      waiting pending e f = ground (arith, f)
      waiting retry e f = ground (arith, f)
      waiting sent e f = ground (arith, f)
      waiting failed e f = ground (arith, f)

      stays : Progress n t (is_joined notifications endpoints) d → is_sending d.status ≡ true → ⊥
      stays (settled s) e = ground (arith, e, (idle d.status s).1)
      stays (waits due a f j) e = waiting d.status (first _ _ due) e

  -- Rounds as one row sees them.
  row_run : List Round → Delivery → Delivery
  row_run [] d = d
  row_run (r ∷ rs) d = row_run rs (row r (recover r.now d))

  row-id : (r : Round) (d : Delivery) → (row r (recover r.now d)).id ≡ d.id
  unfolding recover settle
  row-id r d = moved (is_due r.now (recover r.now d)) (recover r.now d) ∙ recovered
    where
      recovered : (recover r.now d).id ≡ d.id
      recovered =
          if_elim (λ (x : Delivery). x.id ≡ d.id)
            (is_sending d.status
              && elim d.claimed_at [ none ↦ false | some t ↦ ltb (t + 300) r.now ])
            (λ _. refl) (λ _. refl)

      moved :
          (b : Bool) (x : Delivery) → (settle notifications endpoints r (mark r.now b x)).id ≡ x.id
      moved false x = refl
      moved true x =
          if_elim (λ (y : Delivery). y.id ≡ x.id) (is_joined notifications endpoints x)
            (λ _.
              if_elim (λ (y : Delivery). y.id ≡ x.id)
                (r.post (record x { status = sending; claimed_at = some r.now })) (λ _. refl)
                (λ _. refl))
            (λ _. refl)

  row_run-id : (rs : List Round) (d : Delivery) → (row_run rs d).id ≡ d.id
  unfolding row_run
  row_run-id [] d = refl
  row_run-id (r ∷ rs) d = row_run-id rs (row r (recover r.now d)) ∙ row-id r d

  row_run-settled :
      (n t : ℕ) (rs : List Round) (d : Delivery)
      → Spaced t rs
      → 5 ≤ n + length rs
      → Progress n t (is_joined notifications endpoints) d
      → is_settled (row_run rs d).status ≡ true
  unfolding row_run
  row_run-settled n t [] d later h (settled s) = s
  row_run-settled n t [] d later h (waits due a f j) = absurd (omega (arith, h, a, f))
  row_run-settled n t (r ∷ rs) d (now, later) h p =
      row_run-settled (suc n) (r.now + 3600) rs (row r (recover r.now d)) later (omega (arith, h))
        (row-Progress n t r (recover r.now d) now (recover-Progress n t r.now d p))

  deliver-map :
      (limit : ℕ) (r : Round) (ds : List Delivery)
      → length ds ≤ limit
      → (deliver_pending notifications endpoints limit r ds).rows
        ≡ map (λ d. row r (recover r.now d)) ds
  unfolding deliver_pending
  deliver-map limit r ds room =
      let few = subst (λ k. k ≤ limit) (sym (length-map (recover r.now) ds)) room in
      rw (claim-map r.now limit (map (recover r.now) ds) few) (go ds)
    where
      go :
          (xs : List Delivery)
          → map
              (settle notifications endpoints r)
              (map (λ d. mark r.now (is_due r.now d) d) (map (recover r.now) xs))
            ≡ map (λ d. row r (recover r.now d)) xs
      go [] = refl
      go (x ∷ xs) = ap (λ ys. row r (recover r.now x) ∷ ys) (go xs)

  unfoldable pub run : ℕ → List Round → List Delivery → List Delivery
  run limit [] ds = ds
  run limit (r ∷ rs) ds = run limit rs (deliver_pending notifications endpoints limit r ds).rows

  run-map :
      (limit : ℕ) (rs : List Round) (ds : List Delivery)
      → length ds ≤ limit
      → run limit rs ds ≡ map (row_run rs) ds
  unfolding run row_run
  run-map limit [] ds room = same ds
    where
      same : (xs : List Delivery) → xs ≡ map (λ d. d) xs
      same [] = refl
      same (x ∷ xs) = ap (λ ys. x ∷ ys) (same xs)
  run-map limit (r ∷ rs) ds room =
      let f = λ (d : Delivery). row r (recover r.now d) in
      ap (run limit rs) (deliver-map limit r ds room)
      ∙ run-map limit rs (map f ds) (subst (λ k. k ≤ limit) (sym (length-map f ds)) room)
      ∙ go ds
    where
      go :
          (xs : List Delivery)
          → map (row_run rs) (map (λ d. row r (recover r.now d)) xs)
            ≡ map (λ d. row_run rs (row r (recover r.now d))) xs
      go [] = refl
      go (x ∷ xs) = ap (λ ys. row_run rs (row r (recover r.now x)) ∷ ys) (go xs)

  -- Where a row stands after some rounds: at its place, with its id.
  abbrev pub IsSettledAt : List Delivery → Delivery → List Delivery → Type 0
  IsSettledAt before d rows =
      (xs ys : List Delivery) × (e : Delivery) × ((rows ≡ xs ++ e ∷ ys)
        × ((length xs ≡ length before) × ((e.id ≡ d.id) × (is_settled e.status ≡ true))))

  -- One delivery of a table, whatever its other rows are, that is settled, or is due with fewer than
  -- five failures and with its notification and endpoint still there, as it stands once the first
  -- round has given up the claims of more than five minutes ago: after five or more rounds at least
  -- an hour apart, each with room for all rows of the table, it has been sent or has failed for good,
  -- whatever the endpoints answer.
  pub deliver_pending-settled :
      (limit : ℕ) (r : Round) (rs : List Round) (before : List Delivery) (d : Delivery)
      (after : List Delivery)
      → length (before ++ d ∷ after) ≤ limit
      → Spaced (r.now + 3600) rs
      → 4 ≤ length rs
      → Progress 0 r.now (is_joined notifications endpoints) (recover r.now d)
      → IsSettledAt before d (run limit (r ∷ rs) (before ++ d ∷ after))
  unfolding row_run
  deliver_pending-settled limit r rs before d after room later h p =
      let f = row_run (r ∷ rs) in
      (
        map f before,
        map f after,
        f d,
        (
          run-map limit (r ∷ rs) (before ++ d ∷ after) room ∙ place before,
          (
            length-map f before,
            (
              row_run-id (r ∷ rs) d,
              row_run-settled 1 (r.now + 3600) rs (row r (recover r.now d)) later (omega (arith, h))
                  (row-Progress 0 r.now r (recover r.now d) (omega arith) p),
            ),
          ),
        ),
      )
    where
      place :
          (xs : List Delivery)
          → map (row_run (r ∷ rs)) (xs ++ d ∷ after)
            ≡ map (row_run (r ∷ rs)) xs ++ row_run (r ∷ rs) d ∷ map (row_run (r ∷ rs)) after
      place [] = refl
      place (x ∷ xs) = ap (λ ys. row_run (r ∷ rs) x ∷ ys) (place xs)
